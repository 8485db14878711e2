-- ===== src/Pattern/Parser/Items.antt =====
-- Patterns as lists of items: how a list is written as a pattern, and which segments the parser
-- is to make of it.
use logrin.Base.{
  ℕ, zero, suc, ◌+◌, ◌-◌, ◌<◌, ◌≡◌, ◌∙◌, refl, sym, ap, Bool, true, false, not, ◌||◌, List, [], ◌∷◌,
  ◌++◌, Option, none, some, Bytes, codes, ◌==◌, ltb, if◌then◌else◌, length, length-append, get_or,
  take, drop, contains, arith,
}
use logrin.Pattern.Directive
use logrin.Pattern.Error.{Result, ok, err}
use logrin.Pattern.Parser.Names.{name, separates}
use logrin.Pattern.Parser.{is_style_start, same_kind}
use logrin.Pattern.Segment.{
  SegmentKind, literal, attribute, foreground_color_start, background_color_start, style_end,
  Directive, has_specification, Segment,
}

-- A text, an escaped percent sign, a directive, and a directive with a body in braces.
pub data Item : Type 0 where
  text : Bytes → Item
  percent : Item
  bare : SegmentKind → Item
  braced : SegmentKind → Bytes → Item

abbrev pub print_item : Item → Bytes
print_item (text t) = t
print_item percent = codes "%%"
print_item (bare kind) = b'%' ∷ name kind
print_item (braced kind body) = b'%' ∷ (name kind ++ b'{' ∷ (body ++ b'}' ∷ []))

abbrev pub print : List Item → Bytes
print [] = []
print (i ∷ items) = print_item i ++ print items

-- The nesting depth behind a directive.
abbrev pub depth_after : SegmentKind → ℕ → ℕ
depth_after kind depth =
    if is_style_start kind then suc depth else if same_kind kind style_end then depth - 1 else depth

abbrev pub item_depth : ℕ → Item → ℕ
item_depth depth (text t) = depth
item_depth depth percent = depth
item_depth depth (bare kind) = depth_after kind depth
item_depth depth (braced kind body) = depth_after kind depth

abbrev pub directive_of : Result Directive → Option Directive
directive_of (ok d) = some d
directive_of (err e) = none

-- The segment of an item that is written at a position.
abbrev pub piece : ℕ → ℕ → Item → Segment
piece pos depth (text t) = record {
  kind = literal;
  text_offset = pos;
  text_length = length t;
  directive = none;
  depth = depth;
}
piece pos depth percent = record {
  kind = literal;
  text_offset = pos + 1;
  text_length = 1;
  directive = none;
  depth = depth;
}
piece pos depth (bare kind) = record {
  kind = kind;
  text_offset = 0;
  text_length = 0;
  directive = none;
  depth = depth_after kind depth;
}
piece pos depth (braced kind body) = record {
  kind = kind;
  text_offset = 0;
  text_length = 0;
  directive = directive_of (Directive.parse body (pos + length (name kind) + 2) kind);
  depth = depth_after kind depth;
}

abbrev pub pieces : ℕ → ℕ → List Item → List Segment
pieces pos depth [] = []
pieces pos depth (i ∷ items) =
    piece pos depth i ∷ pieces (pos + length (print_item i)) (item_depth depth i) items

-- `%X`, `%fg` and `%bg` need a specification.
abbrev pub needs_specification : SegmentKind → Bool
needs_specification attribute = true
needs_specification foreground_color_start = true
needs_specification background_color_start = true
needs_specification _ = false

-- A style that ends has begun.
abbrev pub is_open : SegmentKind → ℕ → Bool
is_open kind depth = not (same_kind kind style_end) || ltb 0 depth

-- Whether an item may stand at a position, behind a text or not, in front of the rest of a pattern.
abbrev pub Fits : Bool → ℕ → ℕ → Item → Bytes → Type 0
Fits in_text pos depth (text t) rest =
    (in_text ≡ false) × (0 < length t) × (contains t b'%' ≡ false)
Fits in_text pos depth percent rest = Unit {0}
Fits in_text pos depth (bare kind) rest =
    (separates kind rest ≡ true)
    × (get_or rest 0 0 == b'{' ≡ false)
    × (needs_specification kind ≡ false)
    × (is_open kind depth ≡ true)
Fits in_text pos depth (braced kind body) rest =
    (separates kind (b'{' ∷ []) ≡ true)
    × (contains body b'{' ≡ false)
    × (contains body b'}' ≡ false)
    × (is_open kind depth ≡ true)
    × ((d : Directive) × (Directive.parse body (pos + length (name kind) + 2) kind ≡ ok d)
        × (not (needs_specification kind) || has_specification d ≡ true))

abbrev pub is_text : Item → Bool
is_text (text t) = true
is_text percent = false
is_text (bare kind) = false
is_text (braced kind body) = false

-- No two texts stand side by side, every directive is read as it is written, and every style that
-- begins also ends.
abbrev pub IsPattern : Bool → ℕ → ℕ → List Item → Type 0
IsPattern in_text pos depth [] = depth ≡ 0
IsPattern in_text pos depth (i ∷ items) =
    Fits in_text pos depth i (print items)
    × IsPattern (is_text i) (pos + length (print_item i)) (item_depth depth i) items

-- The rest of a text from a position on.
pub record At (input : Bytes) (pos : ℕ) (rest : Bytes) : Type 0 where
  pub behind : drop pos input ≡ rest
  pub ends : pos + length rest ≡ length input

suc_add : (m n : ℕ) → suc m + n ≡ suc (m + n)
suc_add m n = omega arith

add_zero : (n : ℕ) → n + 0 ≡ n
add_zero n = omega arith

drop-nil : (n : ℕ) → drop {A = ℕ} n [] ≡ []
drop-nil zero = refl
drop-nil (suc n) = refl

drop-drop : (m n : ℕ) (xs : Bytes) → drop (m + n) xs ≡ drop n (drop m xs)
drop-drop zero n xs = ap (λ k. drop k xs) (omega arith)
drop-drop (suc m) n [] = drop-nil (suc m + n) ∙ sym (drop-nil n)
drop-drop (suc m) n (x ∷ xs) = ap (λ k. drop k (x ∷ xs)) (suc_add m n) ∙ drop-drop m n xs

get_or-drop : (m n : ℕ) (xs : Bytes) → get_or xs (m + n) 0 ≡ get_or (drop m xs) n 0
get_or-drop zero n xs = ap (λ k. get_or xs k 0) (omega arith)
get_or-drop (suc m) n [] = refl
get_or-drop (suc m) n (x ∷ xs) = ap (λ k. get_or (x ∷ xs) k 0) (suc_add m n) ∙ get_or-drop m n xs

drop-append : (front rest : Bytes) → drop (length front) (front ++ rest) ≡ rest
drop-append [] rest = refl
drop-append (x ∷ front) rest = drop-append front rest

pub take-append : (front rest : Bytes) → take (length front) (front ++ rest) ≡ front
take-append [] rest = refl
take-append (x ∷ front) rest = ap (λ xs. x ∷ xs) (take-append front rest)

module _ {input : Bytes} {pos : ℕ} where
  pub At-drop : {rest : Bytes} → At input pos rest → (n : ℕ) → drop (pos + n) input ≡ drop n rest
  At-drop a n = drop-drop pos n input ∙ ap (drop n) a.behind

  pub At-get_or :
      {rest : Bytes} → At input pos rest → (n : ℕ) → get_or input (pos + n) 0 ≡ get_or rest n 0
  At-get_or a n = get_or-drop pos n input ∙ ap (λ xs. get_or xs n 0) a.behind

  pub At-append :
      (front rest : Bytes) → At input pos (front ++ rest) → At input (pos + length front) rest
  At-append front rest a = record {
    behind = At-drop a (length front) ∙ drop-append front rest;
    ends = omega (arith, a.ends, length-append front rest);
  }

  pub At-first : {c : ℕ} {rest : Bytes} → At input pos (c ∷ rest) → get_or input pos 0 ≡ c
  At-first a = ap (λ k. get_or input k 0) (sym (add_zero pos)) ∙ At-get_or a 0

  pub At-lt : {c : ℕ} {rest : Bytes} → At input pos (c ∷ rest) → pos < length input
  At-lt a = omega (arith, a.ends)

  pub At-now : {rest : Bytes} → At input pos rest → get_or input pos 0 ≡ get_or rest 0 0
  At-now a = ap (λ k. get_or input k 0) (sym (add_zero pos)) ∙ At-get_or a 0
