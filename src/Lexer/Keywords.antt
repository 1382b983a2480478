-- ===== src/Lexer/Keywords.antt =====
-- The spellings of the keywords: `keyword_table!` of src/lexer/tokens.rs.
use aspect.Prelude.{
  ◌≡◌, ◌↔◌, refl, ap, subst, ◌∙◌, Bool, true, ◌&&◌, Option, none, some, List, [], ◌∷◌, arith, inl,
  inr, if◌then◌else◌, Str, codes, str_eq, str_eq_iff, Bool-cases,
}
use aspect.Lexer.Token.{
  Keyword, fn, extern, asm, naked, const, type, enum, struct, sum, alias, public, export, sizeof,
  null, while, if_, else_, elif, for, switch, case, default, is, break, continue, as_, return,
  true_, false_,
}

-- `Display for Keyword`.
unfoldable pub spelling : Keyword → Str
spelling fn = codes "fn"
spelling extern = codes "extern"
spelling asm = codes "asm"
spelling naked = codes "naked"
spelling const = codes "const"
spelling type = codes "type"
spelling enum = codes "enum"
spelling struct = codes "struct"
spelling sum = codes "sum"
spelling alias = codes "alias"
spelling public = codes "public"
spelling export = codes "export"
spelling sizeof = codes "sizeof"
spelling null = codes "null"
spelling while = codes "while"
spelling if_ = codes "if"
spelling else_ = codes "else"
spelling elif = codes "elif"
spelling for = codes "for"
spelling switch = codes "switch"
spelling case = codes "case"
spelling default = codes "default"
spelling is = codes "is"
spelling break = codes "break"
spelling continue = codes "continue"
spelling as_ = codes "as"
spelling return = codes "return"
spelling true_ = codes "true"
spelling false_ = codes "false"

abbrev pub keyword_table : List (Str × Keyword)
keyword_table =
    (codes "fn", fn)
    ∷ (codes "extern", extern)
    ∷ (codes "asm", asm)
    ∷ (codes "naked", naked)
    ∷ (codes "const", const)
    ∷ (codes "type", type)
    ∷ (codes "enum", enum)
    ∷ (codes "struct", struct)
    ∷ (codes "sum", sum)
    ∷ (codes "alias", alias)
    ∷ (codes "public", public)
    ∷ (codes "export", export)
    ∷ (codes "sizeof", sizeof)
    ∷ (codes "null", null)
    ∷ (codes "while", while)
    ∷ (codes "if", if_)
    ∷ (codes "else", else_)
    ∷ (codes "elif", elif)
    ∷ (codes "for", for)
    ∷ (codes "switch", switch)
    ∷ (codes "case", case)
    ∷ (codes "default", default)
    ∷ (codes "is", is)
    ∷ (codes "break", break)
    ∷ (codes "continue", continue)
    ∷ (codes "as", as_)
    ∷ (codes "return", return)
    ∷ (codes "true", true_)
    ∷ (codes "false", false_)
    ∷ []

-- The first entry with that spelling.
unfoldable pub entry : List (Str × Keyword) → Str → Option Keyword
entry [] s = none
entry ((text, keyword) ∷ table) s =
    let rest = entry table s in if str_eq text s then some keyword else rest

unfoldable pub keyword_from_str : Str → Option Keyword
unfolding entry
keyword_from_str s = entry keyword_table s

keyword_from_str-spelling : (k : Keyword) → keyword_from_str (spelling k) ≡ some k
unfolding keyword_from_str spelling str_eq
keyword_from_str-spelling fn = refl
keyword_from_str-spelling extern = refl
keyword_from_str-spelling asm = refl
keyword_from_str-spelling naked = refl
keyword_from_str-spelling const = refl
keyword_from_str-spelling type = refl
keyword_from_str-spelling enum = refl
keyword_from_str-spelling struct = refl
keyword_from_str-spelling sum = refl
keyword_from_str-spelling alias = refl
keyword_from_str-spelling public = refl
keyword_from_str-spelling export = refl
keyword_from_str-spelling sizeof = refl
keyword_from_str-spelling null = refl
keyword_from_str-spelling while = refl
keyword_from_str-spelling if_ = refl
keyword_from_str-spelling else_ = refl
keyword_from_str-spelling elif = refl
keyword_from_str-spelling for = refl
keyword_from_str-spelling switch = refl
keyword_from_str-spelling case = refl
keyword_from_str-spelling default = refl
keyword_from_str-spelling is = refl
keyword_from_str-spelling break = refl
keyword_from_str-spelling continue = refl
keyword_from_str-spelling as_ = refl
keyword_from_str-spelling return = refl
keyword_from_str-spelling true_ = refl
keyword_from_str-spelling false_ = refl

-- Every entry of a table pairs a keyword with its spelling.
unfoldable spelled : List (Str × Keyword) → Bool
spelled [] = true
spelled ((text, keyword) ∷ table) = str_eq text (spelling keyword) && spelled table

keyword_table-spelled : spelled keyword_table ≡ true
unfolding spelled spelling str_eq
keyword_table-spelled = refl

spells : Str → Option Keyword → Bool
spells s none = true
spells s (some keyword) = str_eq s (spelling keyword)

entry-spells :
    (table : List (Str × Keyword)) (s : Str)
    → spelled table ≡ true
    → spells s (entry table s) ≡ true
unfolding entry spelled spells
entry-spells [] s h = refl
entry-spells ((text, keyword) ∷ table) s h = elim (Bool-cases (str_eq text s)) [
  | inl e ↦ rw e (
      subst (λ t. str_eq t (spelling keyword) ≡ true) ((str_eq_iff text s).0 e) (ground (arith, h)))
  | inr e ↦ rw e (entry-spells table s (ground (arith, h)))
]

-- A text is read as a keyword exactly when it is how that keyword is printed.
pub keyword_from_str_iff :
    (s : Str) (k : Keyword) → (keyword_from_str s ≡ some k) ↔ (s ≡ spelling k)
unfolding keyword_from_str spells
keyword_from_str_iff s k = (
  λ h.
      (str_eq_iff s (spelling k)).0
        (subst (λ o. spells s o ≡ true) h (entry-spells keyword_table s keyword_table-spelled)),
  λ e. ap keyword_from_str e ∙ keyword_from_str-spelling k,
)
