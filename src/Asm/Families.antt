-- ===== src/Asm/Families.antt =====
-- The families of the register tables of src/asm.rs.
use aspect.Prelude.{
  ◌≡◌, ◌≤◌, refl, subst, sym, inl, inr, Bool, true, false, ◌&&◌, Option, none, some, List, [], ◌∷◌,
  arith, Str, codes, str_eq, str_eq_iff, leb, all, Bool-cases,
}
use aspect.Asm.{
  RegClass, gpr, sse, RegInfo, Register, x86_64_gprs, x86_64_sse, i386_gprs, find_in, or_else,
  lookup_register,
}

unfoldable pub class_eq : RegClass → RegClass → Bool
class_eq gpr gpr = true
class_eq sse sse = true
class_eq _ _ = false

-- A family name is a register of the same class and family, at least as wide.
unfoldable pub heads : RegInfo → Option RegInfo → Bool
unfolding class_eq
heads info none = false
heads info (some head) =
    str_eq head.family info.family
    && (leb info.width_bits head.width_bits && class_eq head.class info.class)

-- The check on every row of a table.
unfoldable pub rows_headed : (Str → Option RegInfo) → RegClass → List Register → Bool
unfolding heads
rows_headed look class rows =
    all
      (λ row.
        heads (record { family = row.1.0; width_bits = row.1.1; class = class }) (look row.1.0))
      rows

-- A register that was found is headed by its family.
headed : (Str → Option RegInfo) → Option RegInfo → Bool
headed look none = true
headed look (some info) = heads info (look info.family)

rows_headed-find_in :
    (look : Str → Option RegInfo) (class : RegClass) (rows : List Register) (name : Str)
    → rows_headed look class rows ≡ true
    → headed look (find_in rows name class) ≡ true
unfolding rows_headed find_in headed
rows_headed-find_in look class [] name h = refl
rows_headed-find_in look class ((spelling, (family, width_bits)) ∷ rows) name h =
    ground (arith, rows_headed-find_in look class rows name)

x86_64_headed :
    (rows_headed (lookup_register (codes "ARCH_X86_64")) gpr x86_64_gprs ≡ true)
    × (rows_headed (lookup_register (codes "ARCH_X86_64")) sse x86_64_sse ≡ true)
unfolding rows_headed heads lookup_register or_else find_in class_eq str_eq
x86_64_headed = (refl, refl)

i386_headed : rows_headed (lookup_register (codes "ARCH_I386")) gpr i386_gprs ≡ true
unfolding rows_headed heads lookup_register or_else find_in class_eq str_eq
i386_headed = refl

or_else-headed :
    (look : Str → Option RegInfo) (first second : Option RegInfo)
    → headed look first ≡ true
    → headed look second ≡ true
    → headed look (or_else first second) ≡ true
unfolding or_else headed
or_else-headed look none second f s = s
or_else-headed look (some info) second f s = f

lookup_x86_64 :
    (name : Str)
    → lookup_register (codes "ARCH_X86_64") name
      ≡ or_else (find_in x86_64_gprs name gpr) (find_in x86_64_sse name sse)
unfolding lookup_register str_eq
lookup_x86_64 name = refl

lookup_i386 : (name : Str) → lookup_register (codes "ARCH_I386") name ≡ find_in i386_gprs name gpr
unfolding lookup_register str_eq
lookup_i386 name = refl

lookup_other :
    (arch name : Str)
    → str_eq arch (codes "ARCH_X86_64") ≡ false
    → str_eq arch (codes "ARCH_I386") ≡ false
    → lookup_register arch name ≡ none
unfolding lookup_register
lookup_other arch name p q = ground arith

Headed : Str → Str → Type 0
Headed name arch = headed (lookup_register arch) (lookup_register arch name) ≡ true

x86_64-Headed : (name : Str) → Headed name (codes "ARCH_X86_64")
unfolding Headed
x86_64-Headed name =
    let look = lookup_register (codes "ARCH_X86_64") in
    rw (lookup_x86_64 name) (
      or_else-headed look (find_in x86_64_gprs name gpr) (find_in x86_64_sse name sse)
        (rows_headed-find_in look gpr x86_64_gprs name x86_64_headed.0)
        (rows_headed-find_in look sse x86_64_sse name x86_64_headed.1))

i386-Headed : (name : Str) → Headed name (codes "ARCH_I386")
unfolding Headed
i386-Headed name =
    let look = lookup_register (codes "ARCH_I386") in
    rw (lookup_i386 name) (rows_headed-find_in look gpr i386_gprs name i386_headed)

lookup_register-Headed : (arch name : Str) → Headed name arch
unfolding Headed headed
lookup_register-Headed arch name = elim (Bool-cases (str_eq arch (codes "ARCH_X86_64"))) [
  | inl is_x86_64 ↦
      subst (Headed name) (sym ((str_eq_iff arch (codes "ARCH_X86_64")).0 is_x86_64))
        (x86_64-Headed name)
  | inr p ↦ elim (Bool-cases (str_eq arch (codes "ARCH_I386"))) [
    | inl is_i386 ↦
        subst (Headed name) (sym ((str_eq_iff arch (codes "ARCH_I386")).0 is_i386))
          (i386-Headed name)
    | inr q ↦ rw (lookup_other arch name p q) refl
  ]
]

class_eq_lem : (a b : RegClass) → class_eq a b ≡ true → a ≡ b
unfolding class_eq
class_eq_lem gpr gpr h = refl
class_eq_lem gpr sse h = absurd (ground arith)
class_eq_lem sse gpr h = absurd (ground arith)
class_eq_lem sse sse h = refl

heads-lem :
    (info : RegInfo) (found : Option RegInfo)
    → heads info found ≡ true
    → (head : RegInfo) × (found ≡ some head)
      × (head.family ≡ info.family)
      × (info.width_bits ≤ head.width_bits)
      × (head.class ≡ info.class)
unfolding heads class_eq
heads-lem info none h = absurd (ground arith)
heads-lem info (some head) h = (
  head,
  refl,
  (str_eq_iff head.family info.family).0 (ground (arith, h)),
  ground (arith, h),
  class_eq_lem head.class info.class (ground (arith, h)),
)

-- If a name is a register of an architecture, its family is a register there too, of the same
-- family and class and at least as wide.
pub lookup_register-family :
    (arch name : Str) (info : RegInfo)
    → lookup_register arch name ≡ some info
    → (head : RegInfo) × (lookup_register arch info.family ≡ some head)
      × (head.family ≡ info.family)
      × (info.width_bits ≤ head.width_bits)
      × (head.class ≡ info.class)
unfolding headed Headed
lookup_register-family arch name info e = heads-lem info (lookup_register arch info.family) (
    subst (λ found. headed (lookup_register arch) found ≡ true) e
      (lookup_register-Headed arch name))
