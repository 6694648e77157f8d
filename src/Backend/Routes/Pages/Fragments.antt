-- ===== src/Backend/Routes/Pages/Fragments.antt =====
-- The fragment of a log line: a line of a container cannot bring markup with it.
use test_orch.Base.{◌≡◌, refl, ap, ◌∙◌, true, not, [], ◌∷◌, ◌++◌, keep, all, arith}
use test_orch.Base.Text.{Text, text}
use test_orch.Backend.Render.{escape}
use test_orch.Backend.Render.Escape.{is_markup, escape_no_markup}
use test_orch.Backend.Routes.Pages.{render_line}

-- The characters that open and close tags.
abbrev pub tags_of : Text → Text
tags_of s = keep (λ c. not (is_markup c)) s

tags_of-append : (s t : Text) → tags_of (s ++ t) ≡ tags_of s ++ tags_of t
tags_of-append [] t = refl
tags_of-append (c ∷ s) t = ground (arith, tags_of-append s t)

tags_of-none : (s : Text) → all is_markup s ≡ true → tags_of s ≡ []
tags_of-none [] h = refl
tags_of-none (c ∷ s) h = ground (arith, tags_of-none s)

-- The fragment has the brackets of the four tags of its frame, in their order, and none of the
-- line, whatever the container printed.
pub render_line-tags : (line : Text) → tags_of (render_line line) ≡ text "<><><><>"
unfolding render_line escape
render_line-tags line =
    let inner = text "</div></div>" in
    ap (λ t. text "<><>" ++ t)
      (tags_of-append (escape line) inner
        ∙ ap (λ t. t ++ tags_of inner) (tags_of-none (escape line) (escape_no_markup line)))
