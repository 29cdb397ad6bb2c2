-- ===== src/Unicode/Repair.antt =====
-- `utf8_sanitize` of src/unicode_normalize.c against the UTF-8 sequences by the ranges of their bytes.
use cclaw.Prelude.{
  ℕ, zero, suc, ◌-◌, ◌≤◌, ◌≡◌, ◌⊎◌, refl, sym, ap, subst, ◌∙◌, false, ◌&&◌, leb, [], ◌∷◌, Option,
  none, some, none_ne, some_eq, arith, Bool-cases, inl, inr, Bytes, AreBytes, All-append, All-take,
  All-drop, if_both, IsByte, length, drop,
}
use cclaw.Unicode.{
  sequence, decode_utf8_strict, is_surrogate, sanitize_piece, sanitize_from, utf8_sanitize, advance,
  replacement,
}
use cclaw.Unicode.Sequences.{
  Tail, Sequence, one, two, three, four, decode_one, decode_two, decode_three, decode_four,
  decode_none, continuation→Tail, Tail→continuation,
}
use cclaw.Unicode.Clean.{
  IsChain, continuation-fits, sequence-parts, sequence-some, sanitize-IsChain, sanitize-clean,
}
use cclaw.Unicode.Clean

-- A text that is sequences from end to end, none of them for a surrogate.
pub data IsClean : Bytes → Type 0 where
  end : IsClean []
  step :
      (s : Bytes) (n cp : ℕ)
      → Sequence s n cp
      → (cp ≤ 0xD7FF) ⊎ (0xE000 ≤ cp)
      → IsClean (drop n s)
      → IsClean s

Tail→sequence :
    (k v : ℕ) (s : Bytes) (cp : ℕ)
    → AreBytes s
    → Tail k v s cp
    → sequence (suc k) v s ≡ some (suc k, cp)
Tail→sequence k v s cp h t =
    let c = Tail→continuation k v s cp h t in
    sequence-some k v s cp (continuation-fits k v s cp c) c

Sequence→decode :
    (s : Bytes) (n cp : ℕ) → AreBytes s → Sequence s n cp → decode_utf8_strict s ≡ some (n, cp)
Sequence→decode _ _ _ h (one a s hi) = decode_one a s hi
Sequence→decode _ _ _ h (two a cp s lo hi t) =
    decode_two a s lo hi ∙ Tail→sequence 1 (a - 192) s cp h.1 t
Sequence→decode _ _ _ h (three a cp s lo hi t) =
    decode_three a s lo hi ∙ Tail→sequence 2 (a - 224) s cp h.1 t
Sequence→decode _ _ _ h (four a cp s lo hi t) =
    decode_four a s lo hi ∙ Tail→sequence 3 (a - 240) s cp h.1 t

sequence→Tail :
    (k v : ℕ) (s : Bytes) (n cp : ℕ)
    → AreBytes s
    → sequence (suc k) v s ≡ some (n, cp)
    → (suc k ≡ n) × Tail k v s cp
sequence→Tail k v s n cp h e =
    let (en, le, c) = sequence-parts k v s n cp e in (sym en, continuation→Tail k v s cp h c)

outside :
    (a : ℕ)
    → (leb 192 a && leb a 223) ≡ false
    → (leb 224 a && leb a 239) ≡ false
    → (leb 240 a && leb a 247) ≡ false
    → (a ≤ 191) ⊎ (248 ≤ a)
outside a c2 c3 c4 = elim (Bool-cases (leb a 191)) [
  | inl lo ↦ inl (ground arith)
  | inr hi ↦ inr (ground arith)
]

decode→Sequence :
    (s : Bytes) (n cp : ℕ) → AreBytes s → decode_utf8_strict s ≡ some (n, cp) → Sequence s n cp
unfolding decode_utf8_strict
decode→Sequence [] n cp h e = absurd (none_ne e)
decode→Sequence (a ∷ s) n cp (ha, h) e = elim (Bool-cases (leb a 127)) [
  | inl c1 ↦
      let same = some_eq (1, a) (n, cp) (sym (decode_one a s (ground arith)) ∙ e) in
      subst (λ (r : ℕ × ℕ). Sequence (a ∷ s) r.0 r.1) same (one a s (ground arith))
  | inr c1 ↦ elim (Bool-cases (leb 192 a && leb a 223)) [
    | inl c2 ↦
        let (en, t) =
          sequence→Tail 1 (a - 192) s n cp h
            (sym (decode_two a s (ground arith) (ground arith)) ∙ e) in
        subst (λ m. Sequence (a ∷ s) m cp) en (two a cp s (ground arith) (ground arith) t)
    | inr c2 ↦ elim (Bool-cases (leb 224 a && leb a 239)) [
      | inl c3 ↦
          let (en, t) =
            sequence→Tail 2 (a - 224) s n cp h
              (sym (decode_three a s (ground arith) (ground arith)) ∙ e) in
          subst (λ m. Sequence (a ∷ s) m cp) en (three a cp s (ground arith) (ground arith) t)
      | inr c3 ↦ elim (Bool-cases (leb 240 a && leb a 247)) [
        | inl c4 ↦
            let (en, t) =
              sequence→Tail 3 (a - 240) s n cp h
                (sym (decode_four a s (ground arith) (ground arith)) ∙ e) in
            subst (λ m. Sequence (a ∷ s) m cp) en (four a cp s (ground arith) (ground arith) t)
        | inr c4 ↦
            absurd (none_ne (sym (decode_none a s (ground arith) ha (outside a c2 c3 c4)) ∙ e))
      ]
    ]
  ]
]

surrogate-outside : (cp : ℕ) → is_surrogate cp ≡ false → (cp ≤ 0xD7FF) ⊎ (0xE000 ≤ cp)
surrogate-outside cp e = elim (Bool-cases (leb cp 0xD7FF)) [
  | inl lo ↦ inl (ground arith)
  | inr hi ↦ inr (ground arith)
]

outside-surrogate : (cp : ℕ) → (cp ≤ 0xD7FF) ⊎ (0xE000 ≤ cp) → is_surrogate cp ≡ false
outside-surrogate cp (inl lo) = ground arith
outside-surrogate cp (inr hi) = ground arith

IsChain→IsClean : (s : Bytes) → AreBytes s → IsChain s → IsClean s
IsChain→IsClean _ h Clean.IsChain.end = end
IsChain→IsClean _ h (Clean.IsChain.step s n cp d c rest) =
    step s n cp (decode→Sequence s n cp h d) (surrogate-outside cp c)
      (IsChain→IsClean (drop n s) (All-drop IsByte n s h) rest)

IsClean→IsChain : (s : Bytes) → AreBytes s → IsClean s → IsChain s
IsClean→IsChain _ h end = Clean.IsChain.end
IsClean→IsChain _ h (step s n cp q c rest) =
    Clean.IsChain.step s n cp (Sequence→decode s n cp h q) (outside-surrogate cp c)
      (IsClean→IsChain (drop n s) (All-drop IsByte n s h) rest)

replacement-AreBytes : AreBytes replacement
replacement-AreBytes = (omega arith, (omega arith, (omega arith, tt)))

piece-AreBytes : (s : Bytes) (o : Option (ℕ × ℕ)) → AreBytes s → AreBytes (sanitize_piece s o)
piece-AreBytes s none h = replacement-AreBytes
piece-AreBytes s (some (n, cp)) h =
    if_both AreBytes (is_surrogate cp) _ _ replacement-AreBytes (All-take IsByte n s h)

sanitize-AreBytes : (f : ℕ) (s : Bytes) → AreBytes s → AreBytes (sanitize_from f s)
unfolding sanitize_from
sanitize-AreBytes zero s h = tt
sanitize-AreBytes (suc f) [] h = tt
sanitize-AreBytes (suc f) (c ∷ s) h =
    let o = decode_utf8_strict (c ∷ s) in
    All-append IsByte (sanitize_piece (c ∷ s) o) (sanitize_from f (drop (advance o) (c ∷ s)))
      (piece-AreBytes (c ∷ s) o h)
      (sanitize-AreBytes f (drop (advance o) (c ∷ s)) (All-drop IsByte (advance o) (c ∷ s) h))

-- For every byte string, `utf8_sanitize` returns a text that is clean: from end to end it is UTF-8
-- sequences, overlong ones too, none of them for a surrogate. The returned text passes through a
-- second repair unchanged, and a string that was clean is returned as it is.
pub utf8_sanitize_lem :
    (s : Bytes)
    → AreBytes s
    → (r : Bytes) × (utf8_sanitize (some s) ≡ some r)
      × IsClean r
      × (utf8_sanitize (some r) ≡ some r)
      × (IsClean s → r ≡ s)
unfolding utf8_sanitize
utf8_sanitize_lem s h =
    let r = sanitize_from (length s) s in
    let chain = sanitize-IsChain (length s) s in
    (
      r,
      refl,
      IsChain→IsClean r (sanitize-AreBytes (length s) s h) chain,
      ap some (sanitize-clean (length r) r (omega arith) chain),
      λ c. sanitize-clean (length s) s (omega arith) (IsClean→IsChain s h c),
    )
