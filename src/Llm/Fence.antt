-- ===== src/Llm/Fence.antt =====
-- The Markdown fence around a model's answer (cio/clients/llm_client.py, `complete_with_schema`),
-- with Python's `str.splitlines` and `"\n".join`.
use petrosa_cio.Prelude.{
  ℕ, ◌≡◌, refl, sym, ◌∙◌, ap, Str, str, Str-discrete, starts_with, ite, Bool, false, ◌&&◌, ◌||◌,
  ◌==◌, leb, if◌then◌else◌, List, [], ◌∷◌, ◌++◌, All, append_assoc, arith,
}
use petrosa_cio.Prelude.Strip.{lstrip, rstrip, is_nil, strip, IsBlank, lstrip_blank, rstrip_last}

-- What ends a line for `splitlines`.
abbrev pub is_break : ℕ → Bool
is_break c = (leb 10 c && leb c 13) || (leb 28 c && leb c 30) || c == 133 || c == 8232 || c == 8233

starts_line : Str → Bool
starts_line [] = false
starts_line (x ∷ s) = x == 10

onto_first : ℕ → List Str → List Str
onto_first x [] = (x ∷ []) ∷ []
onto_first x (l ∷ ls) = (x ∷ l) ∷ ls

-- `s.splitlines()`; a carriage return and the line feed after it are one break.
pub splitlines : Str → List Str
unfolding starts_line onto_first
splitlines [] = []
splitlines (x ∷ s) =
    let rest = splitlines s in
    if x == 13 && starts_line s then rest else if is_break x then [] ∷ rest else onto_first x rest

-- `"\n".join(lines)`.
pub join_lines : List Str → Str
join_lines [] = []
join_lines (l ∷ []) = l
join_lines (l ∷ m ∷ ls) = l ++ 10 ∷ join_lines (m ∷ ls)

abbrev pub fence : Str
fence = str "```"

-- `inner[:-1]` if the last line is a closing fence.
pub drop_closing : List Str → List Str
unfolding strip
drop_closing [] = []
drop_closing (l ∷ []) = ite (Str-discrete (strip l) fence) [] (l ∷ [])
drop_closing (l ∷ m ∷ ls) = l ∷ drop_closing (m ∷ ls)

pub tail : List Str → List Str
tail [] = []
tail (l ∷ ls) = ls

-- The text without its fences.
pub unfence : Str → Str
unfolding strip starts_with splitlines drop_closing tail join_lines
unfence content =
    let text = strip content in
    if starts_with fence text then join_lines (drop_closing (tail (splitlines text))) else text

-- Texts of one line.
abbrev pub IsLine : Str → Type 0
IsLine = All (λ c. is_break c ≡ false)

-- Each line with its line feed.
abbrev pub unlines : List Str → Str
unlines [] = []
unlines (l ∷ ls) = l ++ 10 ∷ unlines ls

not_return : (x : ℕ) → is_break x ≡ false → (x == 13) ≡ false
not_return x h = ground arith

splitlines-line : (l s : Str) → IsLine l → splitlines (l ++ 10 ∷ s) ≡ l ∷ splitlines s
unfolding splitlines onto_first
splitlines-line [] s h = refl
splitlines-line (x ∷ l) s h = rw (splitlines-line l s h.1, h.0, not_return x h.0) refl

splitlines-unlines :
    (body : List Str) → All IsLine body → splitlines (unlines body ++ fence) ≡ body ++ fence ∷ []
unfolding splitlines onto_first starts_line
splitlines-unlines [] h = refl
splitlines-unlines (l ∷ body) h =
    ap splitlines (append_assoc l (10 ∷ unlines body) fence)
    ∙ splitlines-line l (unlines body ++ fence) h.0
    ∙ ap (λ r. l ∷ r) (splitlines-unlines body h.1)

drop_closing-fence : (body : List Str) → drop_closing (body ++ fence ∷ []) ≡ body
unfolding drop_closing strip lstrip rstrip is_nil Str-discrete
drop_closing-fence [] = refl
drop_closing-fence (l ∷ []) = ap (λ r. l ∷ r) (drop_closing-fence [])
drop_closing-fence (l ∷ m ∷ body) = ap (λ r. l ∷ r) (drop_closing-fence (m ∷ body))

-- An opening fence with its tag, and the lines after it.
abbrev pub opened : Str → List Str → Str
opened tag body = fence ++ (tag ++ 10 ∷ unlines body)

strip-opened :
    (before tag : Str) (body : List Str) (after : Str)
    → IsBlank before
    → IsBlank after
    → strip (before ++ (opened tag body ++ (fence ++ after))) ≡ opened tag body ++ fence
unfolding strip
strip-opened before tag body after h k =
    let core = opened tag body in
    let ticks = str "``" in
    ap rstrip
      (lstrip_blank before (ticks ++ ((tag ++ 10 ∷ unlines body) ++ (fence ++ after))) 96 h refl)
    ∙ ap rstrip (sym (append_assoc core ticks (96 ∷ after)))
    ∙ rstrip_last (core ++ ticks) after 96 k refl
    ∙ append_assoc core ticks (96 ∷ [])

splitlines-opened :
    (tag : Str) (body : List Str)
    → IsLine tag
    → All IsLine body
    → splitlines (opened tag body ++ fence) ≡ (fence ++ tag) ∷ (body ++ fence ∷ [])
splitlines-opened tag body h k =
    ap (λ s. splitlines (fence ++ s)) (append_assoc tag (10 ∷ unlines body) fence)
    ∙ splitlines-line (fence ++ tag) (unlines body ++ fence) (refl, (refl, (refl, h)))
    ∙ ap (λ r. (fence ++ tag) ∷ r) (splitlines-unlines body k)

-- Round trip: the lines that a model puts between two fences are read back as they are, whatever
-- the tag on the opening fence and the blanks around it all, if no line has a line break within.
pub unfence-opened :
    (before tag : Str) (body : List Str) (after : Str)
    → IsBlank before
    → IsBlank after
    → IsLine tag
    → All IsLine body
    → unfence (before ++ (opened tag body ++ (fence ++ after))) ≡ join_lines body
unfolding unfence tail starts_with
unfence-opened before tag body after h k line lines =
    rw
      (
        unfence,
        strip-opened before tag body after h k,
        splitlines-opened tag body line lines,
        drop_closing-fence body,
      )
      refl
