-- ===== src/Proxy/Sni/Safe.antt =====
-- The walk reads only bytes that were peeked, ends within its rounds, and a name that it finds is
-- a part of the buffer that fits the caller's.
use cclaw.Prelude.{
  ℕ, zero, suc, ◌+◌, ◌*◌, ◌≤◌, ◌<◌, ◌≡◌, refl, sym, subst, Bool, true, false, ◌||◌, not, [], ◌∷◌,
  some, ltb, ltb→lt, leb, ◌==◌, if◌then◌else◌, Bytes, length, take, drop, get_elem?, arith,
  Bool-cases, inl, inr, length-take, length-drop,
}
use cclaw.Proxy.Sni.{
  SniParse, incomplete, fail_open, no_sni, fault, found, Walk, go, stop, ◌>>=◌, ◌>>◌, result, read,
  stop_if, byte, word, need, server_name, extensions, hello_body, hello, parse_client_hello_sni,
}

-- A result that is no fault; a name is not empty and shorter than the caller's buffer.
abbrev pub IsSound : ℕ → SniParse → Type 0
IsSound room fault = ⊥
IsSound room (found name) = (1 ≤ length name) × (length name < room)
IsSound room _ = Unit

-- The walk goes on with a value of which `Q` holds, or ends soundly.
abbrev pub Ends {ℓ} : {A : Type ℓ} → ℕ → (A → Type 0) → Walk A → Type 0
Ends room Q (go a) = Q a
Ends room Q (stop r) = IsSound room r

module _ {ℓ κ} {A : Type ℓ} {B : Type κ} (room : ℕ) where
  bind :
      (Q : A → Type 0) (R : B → Type 0) (m : Walk A) (f : A → Walk B)
      → Ends room Q m
      → ((a : A) → Q a → Ends room R (f a))
      → Ends room R (m >>= f)
  bind Q R (go a) f h k = k a h
  bind Q R (stop r) f h k = h

module _ {κ} {B : Type κ} (room : ℕ) (R : B → Type 0) (k : Walk B) where
  -- A test that does not end the walk is known to be false behind it.
  test :
      (t : Bool) (r : SniParse)
      → IsSound room r
      → (t ≡ false → Ends room R k)
      → Ends room R (stop_if t r >> k)
  test true r s h = s
  test false r s h = h refl

in_range : (buf : Bytes) (i : ℕ) → i < length buf → (b : ℕ) × (get_elem? buf i ≡ some b)
in_range [] i h = absurd (omega arith)
in_range (x ∷ buf) zero h = (x, refl)
in_range (x ∷ buf) (suc i) h = in_range buf i (omega arith)

byte-go : (room : ℕ) (buf : Bytes) (i : ℕ) → i < length buf → Ends room (λ _. Unit) (byte buf i)
unfolding byte
byte-go room buf i h =
    let (b, e) = in_range buf i h in subst (λ o. Ends room (λ _. Unit) (read o)) (sym e) tt

word-go : (room : ℕ) (buf : Bytes) (i : ℕ) → i + 1 < length buf → Ends room (λ _. Unit) (word buf i)
unfolding word
word-go room buf i h =
    bind room (λ _. Unit) (λ _. Unit) (byte buf i) _ (byte-go room buf i (omega arith))
      λ hi _.
        bind room (λ _. Unit) (λ _. Unit) (byte buf (i + 1)) _ (byte-go room buf (i + 1) h)
          λ lo _. tt

need-go :
    (room : ℕ) (buf : Bytes) (end pos n : ℕ)
    → Ends room (λ _. (pos + n ≤ end) × (pos + n ≤ length buf)) (need buf end pos n)
unfolding need
need-go room buf end pos n = ground arith

server_name-Ends :
    (room : ℕ) (buf : Bytes) (pos ext_len : ℕ)
    → pos + ext_len ≤ length buf
    → Ends room (IsSound room) (server_name buf room pos ext_len)
unfolding server_name
server_name-Ends room buf pos ext_len h =
    test room (IsSound room) _ (ltb (pos + ext_len) (pos + 2)) fail_open tt λ t1.
      bind room (λ _. Unit) (IsSound room) (word buf pos) _ (word-go room buf pos (ground arith))
        λ list_len _.
          test room (IsSound room) _ (ltb (pos + ext_len) (pos + 2 + list_len)) fail_open tt λ t2.
            test room (IsSound room) _ (ltb (pos + ext_len) (pos + 2 + 3)) fail_open tt λ t3.
              bind room (λ _. Unit) (IsSound room) (byte buf (pos + 2)) _
                (byte-go room buf (pos + 2) (ground arith))
                λ name_type _.
                  bind room (λ _. Unit) (IsSound room) (word buf (pos + 3)) _
                    (word-go room buf (pos + 3) (ground arith))
                    λ name_len _.
                      test room (IsSound room) _ (ltb (pos + ext_len) (pos + 5 + name_len))
                        fail_open tt
                        λ t4.
                          test room (IsSound room) _
                            (not (name_type == 0) || name_len == 0 || leb room name_len) fail_open
                            tt λ t5. named name_type name_len (ground arith) t5
  where
    named :
        (name_type name_len : ℕ)
        → pos + 5 + name_len ≤ length buf
        → not (name_type == 0) || name_len == 0 || leb room name_len ≡ false
        → Ends room (IsSound room) (
            stop_if (ltb (length buf) (pos + 5 + name_len)) fault
            >> go (found (take name_len (drop (pos + 5) buf))))
    named name_type name_len fits t =
        let inside : ltb (length buf) (pos + 5 + name_len) ≡ false = ground arith in
        let size : length (take name_len (drop (pos + 5) buf)) ≡ name_len =
          omega (arith, length-take name_len (drop (pos + 5) buf), length-drop (pos + 5) buf) in
        rw inside (ground arith, ground arith)

extensions-Ends :
    (rounds room : ℕ) (buf : Bytes) (end ext_end pos : ℕ)
    → 1 ≤ rounds
    → ext_end < pos + rounds
    → Ends room (IsSound room) (extensions rounds buf room end ext_end pos)
unfolding extensions
extensions-Ends zero room buf end ext_end pos r h = absurd (omega arith)
extensions-Ends (suc rounds) room buf end ext_end pos r h = elim (Bool-cases (ltb pos ext_end)) [
  | inr done ↦ rw done tt
  | inl more ↦ rw more (
      bind room (λ _. (pos + 4 ≤ end) × (pos + 4 ≤ length buf)) (IsSound room) (need buf end pos 4)
        _ (need-go room buf end pos 4)
        λ _ n1.
          bind room (λ _. Unit) (IsSound room) (word buf pos) _ (word-go room buf pos (omega arith))
            λ ext_type _.
              bind room (λ _. Unit) (IsSound room) (word buf (pos + 2)) _
                (word-go room buf (pos + 2) (omega arith))
                λ ext_len _.
                  bind room (λ _. (pos + 4 + ext_len ≤ end) × (pos + 4 + ext_len ≤ length buf))
                    (IsSound room) (need buf end (pos + 4) ext_len) _
                    (need-go room buf end (pos + 4) ext_len)
                    λ _ n2. next ext_type ext_len n2.1 (
                      extensions-Ends rounds room buf end ext_end (pos + 4 + ext_len)
                        (omega (arith, ltb→lt pos ext_end more))
                        (omega (arith, ltb→lt pos ext_end more))))
]
  where
    next :
        (ext_type ext_len : ℕ)
        → pos + 4 + ext_len ≤ length buf
        → Ends room (IsSound room) (extensions rounds buf room end ext_end (pos + 4 + ext_len))
        → Ends room (IsSound room) (
            if ext_type == 0
            then server_name buf room (pos + 4) ext_len
            else extensions rounds buf room end ext_end (pos + 4 + ext_len))
    next ext_type ext_len fits rest = elim (Bool-cases (ext_type == 0)) [
      | inl e ↦ rw e (server_name-Ends room buf (pos + 4) ext_len fits)
      | inr e ↦ rw e rest
    ]

hello_body-Ends : (buf : Bytes) (room end : ℕ) → Ends room (IsSound room) (hello_body buf room end)
unfolding hello_body
hello_body-Ends buf room end = needs 9 2 _ λ n1. needs 11 32 _ λ n2. needs 43 1 _ λ n3.
    bytes 43 _ (omega arith) λ session_id_len. needs 44 session_id_len _ λ n4.
      needs (44 + session_id_len) 2 _ λ n5.
        words (44 + session_id_len) _ (omega arith) λ cipher_len.
          needs (44 + session_id_len + 2) cipher_len _ λ n6.
            needs (44 + session_id_len + 2 + cipher_len) 1 _ λ n7.
              bytes (44 + session_id_len + 2 + cipher_len) _ (omega arith) λ comp_len.
                let p3 = 44 + session_id_len + 2 + cipher_len + 1 + comp_len in
                needs (44 + session_id_len + 2 + cipher_len + 1) comp_len _ λ n8.
                  test room (IsSound room) _ (leb end p3) no_sni tt λ t1. needs p3 2 _ λ n9.
                    words p3 _ (omega arith) λ ext_total.
                      test room (IsSound room) _ (ltb end (p3 + 2 + ext_total)) fail_open tt λ t2.
                        extensions-Ends (ext_total + 1) room buf end (p3 + 2 + ext_total) (p3 + 2)
                          (omega arith) (omega arith)
  where
    needs :
        (pos n : ℕ) (f : Unit {0} → Walk SniParse)
        → ((pos + n ≤ length buf) → Ends room (IsSound room) (f tt))
        → Ends room (IsSound room) (need buf end pos n >>= f)
    needs pos n f k =
        bind room (λ _. (pos + n ≤ end) × (pos + n ≤ length buf)) (IsSound room)
          (need buf end pos n) f (need-go room buf end pos n) λ _ h. k h.1

    bytes :
        (pos : ℕ) (f : ℕ → Walk SniParse)
        → pos < length buf
        → ((b : ℕ) → Ends room (IsSound room) (f b))
        → Ends room (IsSound room) (byte buf pos >>= f)
    bytes pos f h k =
        bind room (λ _. Unit) (IsSound room) (byte buf pos) f (byte-go room buf pos h) λ b _. k b

    words :
        (pos : ℕ) (f : ℕ → Walk SniParse)
        → pos + 1 < length buf
        → ((b : ℕ) → Ends room (IsSound room) (f b))
        → Ends room (IsSound room) (word buf pos >>= f)
    words pos f h k =
        bind room (λ _. Unit) (IsSound room) (word buf pos) f (word-go room buf pos h) λ b _. k b

hello-Ends : (buf : Bytes) (room : ℕ) → Ends room (IsSound room) (hello buf room)
unfolding hello
hello-Ends buf room = test room (IsSound room) _ (ltb (length buf) 5) incomplete tt λ t1.
    bytes 0 _ (ground arith) λ b0. test room (IsSound room) _ (not (b0 == 0x16)) fail_open tt λ t2.
      bytes 1 _ (ground arith) λ b1.
        test room (IsSound room) _ (not (b1 == 0x03)) fail_open tt λ t3.
          test room (IsSound room) _ (ltb (length buf) 9) incomplete tt λ t4.
            bytes 5 _ (ground arith) λ b5.
              test room (IsSound room) _ (not (b5 == 0x01)) fail_open tt λ t5.
                bytes 6 _ (ground arith) λ b6.
                  bind room (λ _. Unit) (IsSound room) (word buf 7) _
                    (word-go room buf 7 (ground arith))
                    λ len _. hello_body-Ends buf room (9 + (b6 * 65536 + len))
  where
    bytes :
        (pos : ℕ) (f : ℕ → Walk SniParse)
        → pos < length buf
        → ((b : ℕ) → Ends room (IsSound room) (f b))
        → Ends room (IsSound room) (byte buf pos >>= f)
    bytes pos f h k =
        bind room (λ _. Unit) (IsSound room) (byte buf pos) f (byte-go room buf pos h) λ b _. k b

result-IsSound :
    (room : ℕ) (w : Walk SniParse) → Ends room (IsSound room) w → IsSound room (result w)
result-IsSound room (go r) h = h
result-IsSound room (stop r) h = h

-- Whatever bytes a client sends, the walk never reads past the peeked bytes, never runs out of
-- rounds, and a name that it reports is not empty and fits the caller's buffer with its NUL.
pub parse_client_hello_sni-IsSound :
    (buf : Bytes) (sni_cap : ℕ) → IsSound sni_cap (parse_client_hello_sni buf sni_cap)
unfolding parse_client_hello_sni
parse_client_hello_sni-IsSound buf sni_cap =
    result-IsSound sni_cap (hello buf sni_cap) (hello-Ends buf sni_cap)
