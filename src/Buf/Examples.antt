-- ===== src/Buf/Examples.antt =====
-- Runs of src/buf.c.
use cclaw.Prelude.{◌≡◌, refl, true, [], ◌∷◌, some, codes}
use cclaw.Buf.{template_render}

render-test :
    template_render (λ n. true) (some (codes "a {x}, {y}")) ((codes "{x}", codes "one") ∷ [])
    ≡ some (codes "a one, {y}")
unfolding template_render
render-test = refl
