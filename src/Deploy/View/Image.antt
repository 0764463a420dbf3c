-- ===== src/Deploy/View/Image.antt =====
-- The image of a container, written as one text and read back.
use board_old.Prelude.{
  ℕ, ◌+◌, String, none, some, ◌≡◌, refl, ◌∙◌, ap, sym, false, true, arith, ◌==◌, leb,
}
use Prim.Native.Char.{Char, code}
use Prim.Native.String.{◌++◌, len, slice}
use Prim.Native.String.append
use Prim.Native.String.len as Len
use text.Mathlib.TextPositions.{slice-append_middle, len-append}
use text.Mathlib.TextLemmas.{append-nil, append_assoc}
use board_old.Prelude.Panic.{first_index, last_index, substring}
use board_old.Model.ServiceConfig.{ImageIndex}
use board_old.Deploy.Containers.{image_text}
use board_old.Deploy.View.{view_image}

-- The character does not occur in the text.
abbrev pub Lacks : Char → String → Type 0
Lacks c String.[] = Unit
Lacks c (String.◌∷◌ d s) = ((code d == code c) ≡ false) × Lacks c s

first_index_past :
    (c : Char) (a b : String) → Lacks c a → first_index c (a ++ String.◌∷◌ c b) ≡ some (len a)
unfolding first_index
first_index_past c String.[] b h = rw (append.nil (String.◌∷◌ c b)) (ground arith)
first_index_past c (String.◌∷◌ d a) b (h, rest) =
    rw (append.cons d a (String.◌∷◌ c b), Len.cons d a, h, first_index_past c a b rest) refl

last_index-Lacks : (c : Char) (b : String) → Lacks c b → last_index c b ≡ none
unfolding last_index
last_index-Lacks c String.[] h = refl
last_index-Lacks c (String.◌∷◌ d b) (h, rest) = rw (last_index-Lacks c b rest, h) refl

last_index-append :
    (c : Char) (a b : String) {n : ℕ}
    → last_index c b ≡ some n
    → last_index c (a ++ b) ≡ some (len a + n)
unfolding last_index
last_index-append c String.[] b h = rw (append.nil b, h) (ground arith)
last_index-append c (String.◌∷◌ d a) b h =
    rw (append.cons d a b, last_index-append c a b h, Len.cons d a) (ground arith)

-- The text falls into what stands before the tag, and the tag.
tag_apart :
    (uri : String) (image : ImageIndex)
    → image_text uri image ≡ (uri ++ ("/" ++ (image.image_name ++ ":"))) ++ (image.image_tag ++ "")
unfolding image_text
tag_apart uri image = simp (append_assoc, append-nil)

name_apart :
    (uri : String) (image : ImageIndex)
    → image_text uri image ≡ (uri ++ "/") ++ (image.image_name ++ (":" ++ image.image_tag))
unfolding image_text
name_apart uri image = sym (append_assoc uri "/" (image.image_name ++ (":" ++ image.image_tag)))

-- The middle of three parts, cut out by the lengths.
substring_middle :
    (a t u : String) {i j : ℕ}
    → i ≡ len a
    → j ≡ len a + len t
    → substring (a ++ (t ++ u)) i j ≡ some t
substring_middle a t u {i} {j} ei ej =
    let whole : len (a ++ (t ++ u)) ≡ len a + (len t + len u) =
      len-append a (t ++ u) ∙ ap (λ n. len a + n) (len-append t u) in
    let cut : slice (a ++ (t ++ u)) i j ≡ t = rw (ei, ej) (slice-append_middle a t u) in
    let below : leb i j ≡ true = ground arith in
    let inside : leb j (len (a ++ (t ++ u))) ≡ true = ground arith in rw (below, inside, cut) refl

-- A character in front of a text, as an append.
one_char : (c : Char) (s : String) → String.◌∷◌ c "" ++ s ≡ String.◌∷◌ c s
one_char c s = append.cons c "" s ∙ ap (λ t. String.◌∷◌ c t) (append.nil s)

last_index_here : (c : Char) (s : String) → Lacks c s → last_index c (String.◌∷◌ c s) ≡ some 0
unfolding last_index
last_index_here c s h = rw (last_index-Lacks c s h) (ground arith)

module _ (uri : String) (image : ImageIndex) where
  abbrev before_colon : ℕ
  before_colon = len uri + (1 + (len image.image_name + 0))

  colon_at : Lacks ":" image.image_tag → last_index ":" (image_text uri image) ≡ some before_colon
  unfolding image_text
  colon_at tag =
      let colon = ":" ++ image.image_tag in
      let here : last_index ":" colon ≡ some 0 =
        rw (one_char ":" image.image_tag) (last_index_here ":" image.image_tag tag) in
      last_index-append ":" uri ("/" ++ (image.image_name ++ colon)) (
        last_index-append ":" "/" (image.image_name ++ colon)
          (last_index-append ":" image.image_name colon here))

  slash_at : Lacks "/" uri → first_index "/" (image_text uri image) ≡ some (len uri)
  unfolding image_text
  slash_at u =
      let rest = image.image_name ++ (":" ++ image.image_tag) in
      ap (λ t. first_index "/" (uri ++ t)) (one_char "/" rest) ∙ first_index_past "/" uri rest u

  -- A registry without a slash in its address and a tag without a colon: then name and tag of the
  -- image are read back as they were written; the project's name is not written.
  pub view_image-image_text :
      Lacks "/" uri
      → Lacks ":" image.image_tag
      → view_image (image_text uri image) ≡ some (record image { project_name = "" })
  unfolding view_image
  view_image-image_text u tag =
      let text = image_text uri image in
      let before = uri ++ ("/" ++ (image.image_name ++ ":")) in
      let whole : len text ≡ len before + len image.image_tag =
        ap len (tag_apart uri image)
        ∙ len-append before (image.image_tag ++ "")
        ∙ ap (λ t. len before + len t) (append-nil image.image_tag) in
      let parts : len before ≡ len uri + (1 + (len image.image_name + 1)) =
        len-append uri ("/" ++ (image.image_name ++ ":"))
        ∙ ap (λ n. len uri + n)
            (len-append "/" (image.image_name ++ ":")
              ∙ ap (λ n. 1 + n) (len-append image.image_name ":")) in
      let start : before_colon + 1 ≡ len before = omega arith in
      let tag_cut : substring text (before_colon + 1) (len text) ≡ some image.image_tag =
        ap (λ t. substring t (before_colon + 1) (len text)) (tag_apart uri image)
        ∙ substring_middle before image.image_tag "" start whole in
      let slash : len (uri ++ "/") ≡ len uri + 1 = len-append uri "/" in
      let name_end : before_colon ≡ len (uri ++ "/") + len image.image_name = omega arith in
      let name_cut : substring text (len uri + 1) before_colon ≡ some image.image_name =
        ap (λ t. substring t (len uri + 1) before_colon) (name_apart uri image)
        ∙ substring_middle (uri ++ "/") image.image_name (":" ++ image.image_tag)
            (sym (len-append uri "/")) name_end in
      rw (colon_at tag, slash_at u) (rw tag_cut (rw name_cut refl))
