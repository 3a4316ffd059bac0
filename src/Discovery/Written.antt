-- ===== src/Discovery/Written.antt =====
-- What a handler has written: the status and the body of its response, and its headers.
use Prim.Native.String.append
use text.Mathlib.TextLemmas.{append-nil, append_assoc}
use oidc_test_idp.Prelude.{
  ℕ, String, ◌≡◌, refl, sym, ◌∙◌, ap, true, false, List, [], ◌∷◌, if◌then◌else◌, arith,
}
use oidc_test_idp.Prelude.Text.{append}
use oidc_test_idp.Http.{Write, sets, adds, status, writes, Header, header_set, header_add}
use oidc_test_idp.Discovery.{BufferWriter, fresh_buffer, buffer_write, buffer_all}

-- The status of a response is the one that is written first, before any of the body; else 200.
abbrev pub first_status : List Write → ℕ
first_status [] = 200
first_status (sets k v ∷ ws) = first_status ws
first_status (adds k v ∷ ws) = first_status ws
first_status (status code ∷ ws) = code
first_status (writes s ∷ ws) = 200

-- Its body is all that is written, in this order.
abbrev pub whole_body : List Write → String
whole_body [] = ""
whole_body (writes s ∷ ws) = append s (whole_body ws)
whole_body (sets k v ∷ ws) = whole_body ws
whole_body (adds k v ∷ ws) = whole_body ws
whole_body (status code ∷ ws) = whole_body ws

-- Its headers are those that are set and added, in this order.
abbrev pub all_headers : Header → List Write → Header
all_headers h [] = h
all_headers h (sets k v ∷ ws) = all_headers (header_set k v h) ws
all_headers h (adds k v ∷ ws) = all_headers (header_add k v h) ws
all_headers h (status code ∷ ws) = all_headers h ws
all_headers h (writes s ∷ ws) = all_headers h ws

-- A status changes the status alone.
write_status-body : (b : BufferWriter) (code : ℕ) → (buffer_write b (status code)).body ≡ b.body
unfolding buffer_write
write_status-body b code = ground arith

write_status-header :
    (b : BufferWriter) (code : ℕ) → (buffer_write b (status code)).header ≡ b.header
unfolding buffer_write
write_status-header b code = ground arith

pub buffer_all-body :
    (b : BufferWriter) (ws : List Write) → (buffer_all b ws).body ≡ append b.body (whole_body ws)
unfolding buffer_all buffer_write
buffer_all-body b [] = sym (append-nil b.body)
buffer_all-body b (sets k v ∷ ws) = buffer_all-body (buffer_write b (sets k v)) ws
buffer_all-body b (adds k v ∷ ws) = buffer_all-body (buffer_write b (adds k v)) ws
buffer_all-body b (status code ∷ ws) =
    buffer_all-body (buffer_write b (status code)) ws
    ∙ ap (λ s. append s (whole_body ws)) (write_status-body b code)
buffer_all-body b (writes s ∷ ws) =
    buffer_all-body (buffer_write b (writes s)) ws ∙ append_assoc b.body s (whole_body ws)

pub buffer_all-header :
    (b : BufferWriter) (ws : List Write) → (buffer_all b ws).header ≡ all_headers b.header ws
unfolding buffer_all buffer_write
buffer_all-header b [] = refl
buffer_all-header b (sets k v ∷ ws) = buffer_all-header (buffer_write b (sets k v)) ws
buffer_all-header b (adds k v ∷ ws) = buffer_all-header (buffer_write b (adds k v)) ws
buffer_all-header b (status code ∷ ws) =
    buffer_all-header (buffer_write b (status code)) ws
    ∙ ap (λ h. all_headers h ws) (write_status-header b code)
buffer_all-header b (writes s ∷ ws) = buffer_all-header (buffer_write b (writes s)) ws

write_status-kept :
    (b : BufferWriter) (code : ℕ) → b.wrote_header ≡ true → buffer_write b (status code) ≡ b
unfolding buffer_write
write_status-kept b code h =
    ap (λ t. if t then b else record b { status_code = code; wrote_header = true }) h

settled :
    (b : BufferWriter) (ws : List Write)
    → b.wrote_header ≡ true
    → (buffer_all b ws).status_code ≡ b.status_code
unfolding buffer_all buffer_write
settled b [] h = refl
settled b (sets k v ∷ ws) h = settled (buffer_write b (sets k v)) ws h
settled b (adds k v ∷ ws) h = settled (buffer_write b (adds k v)) ws h
settled b (status code ∷ ws) h =
    ap (λ c. (buffer_all c ws).status_code) (write_status-kept b code h) ∙ settled b ws h
settled b (writes s ∷ ws) h = settled (buffer_write b (writes s)) ws refl

pub buffer_all-status_code :
    (b : BufferWriter) (ws : List Write)
    → b.wrote_header ≡ false
    → b.status_code ≡ 200
    → (buffer_all b ws).status_code ≡ first_status ws
unfolding buffer_all buffer_write
buffer_all-status_code b [] h e = e
buffer_all-status_code b (sets k v ∷ ws) h e =
    buffer_all-status_code (buffer_write b (sets k v)) ws h e
buffer_all-status_code b (adds k v ∷ ws) h e =
    buffer_all-status_code (buffer_write b (adds k v)) ws h e
buffer_all-status_code b (status code ∷ ws) h e =
    rw h (settled (record b { status_code = code; wrote_header = true }) ws refl)
buffer_all-status_code b (writes s ∷ ws) h e = settled (buffer_write b (writes s)) ws refl ∙ e

pub fresh-body : (ws : List Write) → (buffer_all fresh_buffer ws).body ≡ whole_body ws
fresh-body ws = buffer_all-body fresh_buffer ws ∙ append.nil (whole_body ws)

pub fresh-header : (ws : List Write) → (buffer_all fresh_buffer ws).header ≡ all_headers [] ws
fresh-header ws = buffer_all-header fresh_buffer ws

pub fresh-status_code :
    (ws : List Write) → (buffer_all fresh_buffer ws).status_code ≡ first_status ws
fresh-status_code ws = buffer_all-status_code fresh_buffer ws refl refl
