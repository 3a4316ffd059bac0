-- ===== src/Reqlog/Ring.antt =====
-- The log holds the most recent requests, in order, and as many as fit.
use Prim.Native.Nat.{min}
use mathlib.Core.List.{append_assoc, append-nil, reverse, reverse-cons, reverse-reverse}
use oidc_test_idp.Prelude.{
  ℕ, zero, suc, ◌-◌, ◌<◌, ◌≡◌, ◌∙◌, refl, ap, List, [], ◌∷◌, ◌++◌, length, drop, length-append,
  length-drop, ltb, pos, arith, Bool-cases, inl, inr,
}
use oidc_test_idp.Reqlog.{Entry, Log, new, add, entries}

abbrev take : ℕ → List Entry → List Entry
take zero xs = []
take (suc n) [] = []
take (suc n) (x ∷ xs) = x ∷ take n xs

take-append-drop : (n : ℕ) (xs : List Entry) → take n xs ++ drop n xs ≡ xs
take-append-drop zero xs = refl
take-append-drop (suc n) [] = refl
take-append-drop (suc n) (x ∷ xs) = rw (take-append-drop n xs)

-- The entries that were added, oldest first, one after the other.
pub add_all : Log → List Entry → Log
add_all l [] = l
add_all l (e ∷ es) = add_all (add l e) es

-- The buffer is the end of the history, and as long as fits.
pub record Holds (l : Log) (history : List Entry) : Type 0 where
  pub dropped : List Entry
  pub suffix : history ≡ dropped ++ l.buf
  pub size : length l.buf ≡ min l.limit (length history)

limit-add : (l : Log) (e : Entry) → (add l e).limit ≡ l.limit
unfolding add
limit-add l e = ground arith

-- Where a list ends, and how long it is, once it is cut.
cut-suffix :
    (n : ℕ) (before buf : List Entry) (e : Entry) (history : List Entry)
    → history ≡ before ++ buf
    → history ++ e ∷ [] ≡ (before ++ take n (buf ++ e ∷ [])) ++ drop n (buf ++ e ∷ [])
cut-suffix n before buf e history h = simp (h, append_assoc, take-append-drop n (buf ++ e ∷ []))

pub Holds-add :
    (l : Log) (history : List Entry) (e : Entry)
    → Holds l history
    → Holds (add l e) (history ++ e ∷ [])
unfolding add
Holds-add l history e h = elim (Bool-cases (ltb l.limit (length (l.buf ++ e ∷ [])))) [
  | inl full ↦
      rw (full, add)
        (record {
          dropped = h.dropped ++ take (length (l.buf ++ e ∷ []) - l.limit) (l.buf ++ e ∷ []);
          suffix =
              cut-suffix (length (l.buf ++ e ∷ []) - l.limit) h.dropped l.buf e history h.suffix;
          size = ground (
            arith,
            h.size,
            length-drop (length (l.buf ++ e ∷ []) - l.limit) (l.buf ++ e ∷ []),
            length-append l.buf (e ∷ []),
            length-append history (e ∷ []),
          );
        })
  | inr room ↦
      rw (room, add)
        (record {
          dropped = h.dropped;
          suffix = simp (h.suffix, append_assoc);
          size =
              ground (arith, h.size, length-append l.buf (e ∷ []), length-append history (e ∷ []));
        })
]

Holds-add_all :
    (l : Log) (history es : List Entry) → Holds l history → Holds (add_all l es) (history ++ es)
unfolding add_all
Holds-add_all l history [] h = rw (append-nil history) h
Holds-add_all l history (e ∷ es) h =
    let ih = Holds-add_all (add l e) (history ++ e ∷ []) es (Holds-add l history e h) in
    rw (append_assoc history (e ∷ []) es) at ih

limit-add_all : (l : Log) (es : List Entry) → (add_all l es).limit ≡ l.limit
unfolding add_all
limit-add_all l [] = refl
limit-add_all l (e ∷ es) = limit-add_all (add l e) es ∙ limit-add l e

length-reverse : (xs : List Entry) → length (reverse xs) ≡ length xs
length-reverse [] = refl
length-reverse (x ∷ xs) =
    omega
      (arith, ap length (reverse-cons x xs), length-append (reverse xs) (x ∷ []), length-reverse xs)

Holds-new : (n : ℕ) → Holds (new (pos n)) []
unfolding new
Holds-new n = record { dropped = []; suffix = refl; size = omega arith }

limit-new : (n : ℕ) → 0 < n → (new (pos n)).limit ≡ n
unfolding new
limit-new n h = ground arith

-- After any requests, a log of a positive size n shows the last requests, newest first, and as
-- many of them as n allows.
pub entries-add_all :
    (n : ℕ) (history : List Entry)
    → 0 < n
    → (dropped : List Entry) × (history
        ≡ dropped ++ reverse (entries (add_all (new (pos n)) history)))
      × (length (entries (add_all (new (pos n)) history)) ≡ min n (length history))
unfolding entries
entries-add_all n history h =
    let held = Holds-add_all (new (pos n)) [] history (Holds-new n) in
    (
      held.dropped,
      rw reverse-reverse held.suffix,
      ground (
        arith,
        held.size,
        length-reverse (add_all (new (pos n)) history).buf,
        limit-add_all (new (pos n)) history,
        limit-new n h,
      ),
    )
