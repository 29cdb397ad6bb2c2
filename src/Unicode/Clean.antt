-- ===== src/Unicode/Clean.antt =====
-- `utf8_sanitize` of src/unicode_normalize.c against its own decoder: what it leaves is a chain of
-- decodable sequences, and it leaves such a chain as it is.
use cclaw.Prelude.{
  ℕ, zero, suc, ◌*◌, ◌≤◌, ◌≡◌, refl, sym, ap, subst, ◌∙◌, false, [], ◌∷◌, ◌++◌, Option, none, some,
  none_ne, some_eq, ltb, ◌==◌, if◌then◌else◌, Bytes, length, take, drop, bit_and, bit_or, arith,
  ◌⊎◌, Bool-cases, inl, inr, take-append-drop, length-append, length-take, length-drop,
}
use cclaw.Unicode.{
  continuation, with_length, sequence, decode_utf8_strict, advance, replacement, is_surrogate,
  sanitize_piece, sanitize_from,
}

-- A text that is a chain of decodable sequences, none of them a surrogate.
pub data IsChain : Bytes → Type 0 where
  end : IsChain []
  step :
      (s : Bytes) (n cp : ℕ)
      → decode_utf8_strict s ≡ some (n, cp)
      → is_surrogate cp ≡ false
      → IsChain (drop n s)
      → IsChain s

pub continuation-fits : (k v : ℕ) (s : Bytes) (cp : ℕ) → continuation k v s ≡ some cp → k ≤ length s
unfolding continuation
continuation-fits zero v s cp h = omega arith
continuation-fits (suc k) v [] cp h = absurd (none_ne h)
continuation-fits (suc k) v (b ∷ s) cp h =
    ground (arith, continuation-fits k (bit_or (v * 64) (bit_and b 0x3F)) s cp)

-- Only the bytes of the sequence are looked at.
continuation-take :
    (k v : ℕ) (s t : Bytes) (cp : ℕ)
    → continuation k v s ≡ some cp
    → continuation k v (take k s ++ t) ≡ some cp
unfolding continuation
continuation-take zero v s t cp h = h
continuation-take (suc k) v [] t cp h = absurd (none_ne h)
continuation-take (suc k) v (b ∷ s) t cp h =
    ground (arith, continuation-take k (bit_or (v * 64) (bit_and b 0x3F)) s t cp)

with_length-eq :
    (n m cp : ℕ) (o : Option ℕ) → with_length n o ≡ some (m, cp) → (n ≡ m) × (o ≡ some cp)
with_length-eq n m cp none h = absurd (none_ne h)
with_length-eq n m cp (some x) h = ground arith

-- What a successful decode says of the first n bytes, whatever follows them.
abbrev pub Decodes : Bytes → ℕ → ℕ → Type 0
Decodes s n cp =
    (1 ≤ n) × (n ≤ length s) × ((t : Bytes) → decode_utf8_strict (take n s ++ t) ≡ some (n, cp))

pub sequence-parts :
    (k v : ℕ) (rest : Bytes) (n cp : ℕ)
    → sequence (suc k) v rest ≡ some (n, cp)
    → (n ≡ suc k) × (k ≤ length rest) × (continuation k v rest ≡ some cp)
unfolding sequence
sequence-parts k v rest n cp h = ground (arith, with_length-eq (suc k) n cp (continuation k v rest))

pub sequence-some :
    (k v : ℕ) (s : Bytes) (cp : ℕ)
    → k ≤ length s
    → continuation k v s ≡ some cp
    → sequence (suc k) v s ≡ some (suc k, cp)
unfolding sequence
sequence-some k v s cp le h = ground arith

append-fits : (k : ℕ) (s t : Bytes) → k ≤ length s → k ≤ length (take k s ++ t)
append-fits k s t le = omega (arith, length-append (take k s) t, length-take k s)

sequence-Decodes :
    (k v : ℕ) (rest : Bytes) (n cp : ℕ)
    → sequence (suc k) v rest ≡ some (n, cp)
    → (n ≡ suc k)
      × (k ≤ length rest)
      × ((t : Bytes) → sequence (suc k) v (take k rest ++ t) ≡ some (suc k, cp))
sequence-Decodes k v rest n cp h =
    let (en, le, hc) = sequence-parts k v rest n cp h in
    (
      en,
      le,
      λ t.
          sequence-some k v (take k rest ++ t) cp (append-fits k rest t le)
            (continuation-take k v rest t cp hc),
    )

-- What the lead byte alone decides.
decode-lead :
    (c : ℕ)
    → ((rest : Bytes) → decode_utf8_strict (c ∷ rest) ≡ some (1, c))
      ⊎ ((k : ℕ) × (v : ℕ) × ((rest : Bytes)
            → decode_utf8_strict (c ∷ rest) ≡ sequence (suc k) v rest))
      ⊎ ((rest : Bytes) → decode_utf8_strict (c ∷ rest) ≡ none)
unfolding decode_utf8_strict
decode-lead c = elim (Bool-cases (ltb c 0x80)) [
  | inl e1 ↦ inl (λ rest. rw e1)
  | inr e1 ↦ elim (Bool-cases (bit_and c 0xE0 == 0xC0)) [
    | inl e2 ↦ inr (inl (1, bit_and c 0x1F, λ rest. rw (e1, e2)))
    | inr e2 ↦ elim (Bool-cases (bit_and c 0xF0 == 0xE0)) [
      | inl e3 ↦ inr (inl (2, bit_and c 0x0F, λ rest. rw (e1, e2, e3)))
      | inr e3 ↦ elim (Bool-cases (bit_and c 0xF8 == 0xF0)) [
        | inl e4 ↦ inr (inl (3, bit_and c 0x07, λ rest. rw (e1, e2, e3, e4)))
        | inr e4 ↦ inr (inr (λ rest. rw (e1, e2, e3, e4)))
      ]
    ]
  ]
]

one-Decodes :
    (c : ℕ) (rest : Bytes) (n cp : ℕ)
    → ((r : Bytes) → decode_utf8_strict (c ∷ r) ≡ some (1, c))
    → decode_utf8_strict (c ∷ rest) ≡ some (n, cp)
    → Decodes (c ∷ rest) n cp
one-Decodes c rest n cp all h =
    let e = some_eq (1, c) (n, cp) (sym (all rest) ∙ h) in
    let en : 1 ≡ n = ap (λ p. p.0) e in
    let ec : c ≡ cp = ap (λ p. p.1) e in
    subst (λ m. Decodes (c ∷ rest) m cp) en
      (omega arith, omega arith, λ t. all t ∙ ap (λ x. some (1, x)) ec)

many-Decodes :
    (c k v : ℕ) (rest : Bytes) (n cp : ℕ)
    → ((r : Bytes) → decode_utf8_strict (c ∷ r) ≡ sequence (suc k) v r)
    → decode_utf8_strict (c ∷ rest) ≡ some (n, cp)
    → Decodes (c ∷ rest) n cp
many-Decodes c k v rest n cp all h =
    let (en, le, ht) = sequence-Decodes k v rest n cp (sym (all rest) ∙ h) in
    subst (λ m. Decodes (c ∷ rest) m cp) (sym en)
      (omega arith, omega arith, λ t. all (take k rest ++ t) ∙ ht t)

pub decode-Decodes : (s : Bytes) (n cp : ℕ) → decode_utf8_strict s ≡ some (n, cp) → Decodes s n cp
unfolding decode_utf8_strict
decode-Decodes [] n cp h = absurd (none_ne h)
decode-Decodes (c ∷ rest) n cp h = elim (decode-lead c) [
  | inl all ↦ one-Decodes c rest n cp all h
  | inr (inl (k, v, all)) ↦ many-Decodes c k v rest n cp all h
  | inr (inr bad) ↦ absurd (none_ne (sym (bad rest) ∙ h))
]

drop-take : (n : ℕ) (s t : Bytes) → n ≤ length s → drop n (take n s ++ t) ≡ t
drop-take zero s t le = refl
drop-take (suc n) [] t le = absurd (omega arith)
drop-take (suc n) (c ∷ s) t le = drop-take n s t (omega arith)

-- A sequence in front of a clean text leaves it clean.
take-IsChain :
    (s t : Bytes) (n cp : ℕ)
    → decode_utf8_strict s ≡ some (n, cp)
    → is_surrogate cp ≡ false
    → IsChain t
    → IsChain (take n s ++ t)
take-IsChain s t n cp hd hs ht =
    let (pos, le, all) = decode-Decodes s n cp hd in
    step (take n s ++ t) n cp (all t) hs (subst IsChain (sym (drop-take n s t le)) ht)

replacement-decodes : decode_utf8_strict replacement ≡ some (3, 0xFFFD)
unfolding decode_utf8_strict sequence continuation
replacement-decodes = refl

replacement-IsChain : (t : Bytes) → IsChain t → IsChain (replacement ++ t)
replacement-IsChain t ht = take-IsChain replacement t 3 0xFFFD replacement-decodes refl ht

piece-IsChain :
    (s t : Bytes) (o : Option (ℕ × ℕ))
    → decode_utf8_strict s ≡ o
    → IsChain t
    → IsChain (sanitize_piece s o ++ t)
piece-IsChain s t none hd ht = replacement-IsChain t ht
piece-IsChain s t (some (n, cp)) hd ht = elim (Bool-cases (is_surrogate cp)) [
  | inl e ↦
      subst (λ b. IsChain ((if b then replacement else take n s) ++ t)) (sym e)
        (replacement-IsChain t ht)
  | inr e ↦
      subst (λ b. IsChain ((if b then replacement else take n s) ++ t)) (sym e)
        (take-IsChain s t n cp hd e ht)
]

pub sanitize-IsChain : (f : ℕ) (s : Bytes) → IsChain (sanitize_from f s)
unfolding sanitize_from
sanitize-IsChain zero s = end
sanitize-IsChain (suc f) [] = end
sanitize-IsChain (suc f) (c ∷ s) =
    piece-IsChain (c ∷ s) (sanitize_from f (drop (advance (decode_utf8_strict (c ∷ s))) (c ∷ s)))
      (decode_utf8_strict (c ∷ s)) refl
      (sanitize-IsChain f (drop (advance (decode_utf8_strict (c ∷ s))) (c ∷ s)))

IsChain-parts :
    (s : Bytes)
    → IsChain s
    → (s ≡ [])
      ⊎ ((n : ℕ) × (cp : ℕ) × (decode_utf8_strict s ≡ some (n, cp))
          × (is_surrogate cp ≡ false)
          × IsChain (drop n s))
IsChain-parts _ end = inl refl
IsChain-parts _ (step s n cp hd hs hc) = inr (n, cp, hd, hs, hc)

pub sanitize-clean : (f : ℕ) (s : Bytes) → length s ≤ f → IsChain s → sanitize_from f s ≡ s
unfolding sanitize_from
sanitize-clean zero [] le c = refl
sanitize-clean zero (x ∷ s) le c = absurd (omega arith)
sanitize-clean (suc f) [] le c = refl
sanitize-clean (suc f) (x ∷ s) le c = elim (IsChain-parts (x ∷ s) c) [
  | inl e ↦ absurd (omega (arith, ap length e))
  | inr (n, cp, hd, hs, hc) ↦
      let (pos, fits, all) = decode-Decodes (x ∷ s) n cp hd in
      let shorter : length (drop n (x ∷ s)) ≤ f = omega (arith, length-drop n (x ∷ s)) in
      let later = sanitize-clean f (drop n (x ∷ s)) shorter hc in
      subst (λ o. sanitize_piece (x ∷ s) o ++ sanitize_from f (drop (advance o) (x ∷ s)) ≡ x ∷ s)
        (sym hd)
        (subst
          (λ b.
            (if b then replacement else take n (x ∷ s)) ++ sanitize_from f (drop n (x ∷ s)) ≡ x ∷ s)
          (sym hs) (ap (λ r. take n (x ∷ s) ++ r) later ∙ take-append-drop n (x ∷ s)))
]
