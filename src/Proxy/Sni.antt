-- ===== src/Proxy/Sni.antt =====
-- `parse_client_hello_sni` and `sni_check` of src/proxy.c: the bounded walk of a TLS ClientHello.
-- A read of the buffer past the bytes that were peeked is the result `fault`, and so is a walk of
-- the extensions that runs out of rounds: both are shown never to happen.
pub mod Safe
use cclaw.Prelude.{
  ℕ, zero, suc, ◌+◌, ◌-◌, ◌*◌, Bool, true, false, ◌&&◌, ◌||◌, not, List, [], ◌∷◌, Option, none,
  some, ltb, leb, ◌==◌, if◌then◌else◌, Bytes, length, take, drop, get_elem?,
}
use cclaw.Host.Rules.{RuleList, host_match}

-- SNI_PARSE_INCOMPLETE, _FAIL_OPEN, _FOUND (with the name) and _NO_SNI
pub data SniParse : Type 0 where
  incomplete fail_open no_sni fault : SniParse
  found : Bytes → SniParse

-- A step goes on with a value or ends the walk.
pub data Walk {ℓ} (A : Type ℓ) : Type ℓ where
  go : A → Walk A
  stop : SniParse → Walk A

infixl 5 ◌>>=◌ ◌>>◌
abbrev pub ◌>>=◌ {ℓ κ} : {A : Type ℓ} {B : Type κ} → Walk A → (A → Walk B) → Walk B
go a >>= f = f a
stop r >>= f = stop r

abbrev pub ◌>>◌ {ℓ} : {B : Type ℓ} → Walk (Unit {0}) → Walk B → Walk B
m >> k = m >>= λ _. k

abbrev pub result : Walk SniParse → SniParse
result (go r) = r
result (stop r) = r

-- `if (cond) return r;`
abbrev pub stop_if : Bool → SniParse → Walk (Unit {0})
stop_if true r = stop r
stop_if false r = go tt

abbrev pub read : Option ℕ → Walk ℕ
read none = stop fault
read (some b) = go b

-- `buf[i]`
unfoldable pub byte : Bytes → ℕ → Walk ℕ
byte buf i = read (get_elem? buf i)

-- Two bytes in network order.
unfoldable pub word : Bytes → ℕ → Walk ℕ
word buf i = do hi ← byte buf i; lo ← byte buf (i + 1); go (hi * 256 + lo)

-- SNI_NEED(n)
unfoldable pub need : Bytes → ℕ → ℕ → ℕ → Walk (Unit {0})
need buf end pos n = do
  stop_if (ltb end (pos + n)) fail_open
  stop_if (ltb (length buf) (pos + n)) incomplete

-- The body of the server_name extension, `ext_len` bytes from `pos`.
unfoldable pub server_name : Bytes → ℕ → ℕ → ℕ → Walk SniParse
server_name buf sni_cap pos ext_len = do
  let sp_end = pos + ext_len
  stop_if (ltb sp_end (pos + 2)) fail_open
  list_len ← word buf pos
  stop_if (ltb sp_end (pos + 2 + list_len)) fail_open
  stop_if (ltb sp_end (pos + 2 + 3)) fail_open
  name_type ← byte buf (pos + 2)
  name_len ← word buf (pos + 3)
  stop_if (ltb sp_end (pos + 5 + name_len)) fail_open
  stop_if (not (name_type == 0) || name_len == 0 || leb sni_cap name_len) fail_open
  stop_if (ltb (length buf) (pos + 5 + name_len)) fault
  go (found (take name_len (drop (pos + 5) buf)))

-- The loop over the extensions, with the rounds left.
unfoldable pub extensions : ℕ → Bytes → ℕ → ℕ → ℕ → ℕ → Walk SniParse
extensions zero buf sni_cap end ext_end pos = stop fault
extensions (suc rounds) buf sni_cap end ext_end pos =
    let body = (do
      need buf end pos 4
      ext_type ← word buf pos
      ext_len ← word buf (pos + 2)
      need buf end (pos + 4) ext_len
      if ext_type == 0
          then server_name buf sni_cap (pos + 4) ext_len
          else extensions rounds buf sni_cap end ext_end (pos + 4 + ext_len)) in
    if ltb pos ext_end then body else go no_sni

-- From the version to the end of the extensions.
unfoldable pub hello_body : Bytes → ℕ → ℕ → Walk SniParse
hello_body buf sni_cap end = do
  need buf end 9 2
  need buf end 11 32
  need buf end 43 1
  session_id_len ← byte buf 43
  need buf end 44 session_id_len
  let p1 = 44 + session_id_len
  need buf end p1 2
  cipher_len ← word buf p1
  need buf end (p1 + 2) cipher_len
  let p2 = p1 + 2 + cipher_len
  need buf end p2 1
  comp_len ← byte buf p2
  need buf end (p2 + 1) comp_len
  let p3 = p2 + 1 + comp_len
  stop_if (leb end p3) no_sni
  need buf end p3 2
  ext_total ← word buf p3
  let ext_end = p3 + 2 + ext_total
  stop_if (ltb end ext_end) fail_open
  extensions (ext_total + 1) buf sni_cap end ext_end (p3 + 2)

unfoldable pub hello : Bytes → ℕ → Walk SniParse
hello buf sni_cap = do
  stop_if (ltb (length buf) 5) incomplete
  b0 ← byte buf 0
  stop_if (not (b0 == 0x16)) fail_open
  b1 ← byte buf 1
  stop_if (not (b1 == 0x03)) fail_open
  stop_if (ltb (length buf) 9) incomplete
  b5 ← byte buf 5
  stop_if (not (b5 == 0x01)) fail_open
  b6 ← byte buf 6
  len ← word buf 7
  hello_body buf sni_cap (9 + (b6 * 65536 + len))

-- `buf` holds the bytes peeked so far, `have` of them.
unfoldable pub parse_client_hello_sni : Bytes → ℕ → SniParse
unfolding hello hello_body extensions server_name need word byte
parse_client_hello_sni buf sni_cap = result (hello buf sni_cap)

-- What one peek decides, if anything: `none` is SNI_PARSE_INCOMPLETE, on which the loop goes on.
abbrev pub sni_verdict : Option RuleList → ℕ → ℕ → SniParse → Option Bool
sni_verdict rules strict_port port (found sni) = some (host_match rules (some sni))
sni_verdict rules strict_port port no_sni = some (not (port == strict_port))
sni_verdict rules strict_port port fail_open = some true
sni_verdict rules strict_port port fault = some true
sni_verdict rules strict_port port incomplete = none

abbrev pub sni_peek_max : ℕ
sni_peek_max = 2048

abbrev pub or_next : Option Bool → Bool → Bool
or_next (some verdict) next = verdict
or_next none next = next

-- The loop over the peeks of the client's stream up to the deadline: each holds what was peeked by
-- then, and the end of the list is the deadline.
unfoldable pub sni_check : Option RuleList → ℕ → ℕ → List Bytes → Bool
sni_check rules strict_port port [] = true
sni_check rules strict_port port (buf ∷ peeks) =
    let later = sni_check rules strict_port port peeks in
    or_next (sni_verdict rules strict_port port (parse_client_hello_sni buf 256))
      (if leb sni_peek_max (length buf) then true else later)
