-- ===== src/Buf.antt =====
-- src/buf.c: the growing buffer, and the templates rendered into one. The content stands for `data`
-- up to `len`; the formatted append is not modelled. `can_alloc` tells whether `realloc` gives a
-- block of that size. A doubling that has not reached the size after 64 rounds has wrapped to 0,
-- where the C loop would not end.
mod Examples
use cclaw.Prelude.{
  ℕ, zero, suc, ◌+◌, ◌-◌, ◌*◌, ◌%◌, ◌^◌, Bool, true, false, List, [], ◌∷◌, ◌++◌, Option, none, some,
  ltb, ◌==◌, if◌then◌else◌, Bytes, bytes_eq, length, take, drop,
}

pub record Buf : Type 0 where
  pub content : Bytes
  pub cap : ℕ
  pub oom : Bool

abbrev pub size_max : ℕ
size_max = 2 ^ 64 - 1

-- `Buf b = {0}`
abbrev pub empty_buf : Buf
empty_buf = record { content = []; cap = 0; oom = false }

-- `while (nc < need) nc *= 2;`
unfoldable pub double_until : ℕ → ℕ → ℕ → ℕ
double_until zero need nc = nc
double_until (suc rounds) need nc =
    let more = double_until rounds need (nc * 2 % 2 ^ 64) in if ltb nc need then more else nc

module _ (can_alloc : ℕ → Bool) where
  unfoldable pub buf_append : Buf → Bytes → Buf
  unfolding double_until
  buf_append b s =
      let need = length b.content + length s + 1 in
      let nc = double_until 64 need (if b.cap == 0 then 256 else b.cap * 2) in
      if b.oom
      then b
      else if ltb (size_max - length b.content - 1) (length s)
      then record b { oom = true }
      else if ltb b.cap need
      then (if can_alloc nc
          then record b { content = b.content ++ s; cap = nc }
          else record b { oom = true })
      else record b { content = b.content ++ s }

  unfoldable pub buf_append_str : Buf → Bytes → Buf
  unfolding buf_append
  buf_append_str b s = buf_append b s

  unfoldable pub buf_append_char : Buf → ℕ → Buf
  unfolding buf_append
  buf_append_char b c = buf_append b (c ∷ [])

  -- The string handed over, or NULL; the buffer itself is left empty.
  unfoldable pub buf_take : Buf → Option Bytes
  buf_take b = if b.oom then none else some b.content

  -- The first variable whose key stands at the front of the text, with its value.
  unfoldable pub find_var : List (Bytes × Bytes) → Bytes → Option (Bytes × Bytes)
  find_var [] s = none
  find_var ((key, val) ∷ vars) s =
      let later = find_var vars s in
      if bytes_eq (take (length key) s) key then some (key, val) else later

  abbrev pub var_at : ℕ → List (Bytes × Bytes) → Bytes → Option (Bytes × Bytes)
  var_at c vars s = if c == b'{' then find_var vars s else none

  -- The loop over the template, with the rounds left. A key is not empty, so a round passes a byte.
  unfoldable pub render_from : ℕ → List (Bytes × Bytes) → Buf → Bytes → Buf
  unfolding find_var
  render_from zero vars b s = b
  render_from (suc rounds) vars b [] = b
  render_from (suc rounds) vars b (c ∷ s) = elim (var_at c vars (c ∷ s)) [
    | none ↦ render_from rounds vars (buf_append_char b c) s
    | some (key, val) ↦ render_from rounds vars (buf_append_str b val) (drop (length key) (c ∷ s))
  ]

  unfoldable pub template_render : Option Bytes → List (Bytes × Bytes) → Option Bytes
  unfolding render_from buf_append_str buf_append_char buf_take
  template_render none vars = none
  template_render (some tmpl) vars = buf_take (render_from (length tmpl) vars empty_buf tmpl)
