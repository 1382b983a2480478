-- ===== src/Asm.antt =====
-- The register tables of src/asm.rs.
pub mod Families
use aspect.Prelude.{
  ℕ, ◌≡◌, Bool, true, false, ◌||◌, Option, none, some, List, [], ◌∷◌, if◌then◌else◌, Str, codes,
  str_eq,
}

pub data RegClass : Type 0 where
  gpr sse : RegClass

pub record RegInfo : Type 0 where
  pub family : Str
  pub width_bits : ℕ
  pub class : RegClass

-- A row of a table: the spelling, its family, its width.
abbrev pub Register : Type 0
Register = Str × (Str × ℕ)

abbrev pub x86_64_gprs : List Register
x86_64_gprs =
    (codes "rax", (codes "rax", 64))
    ∷ (codes "eax", (codes "rax", 32))
    ∷ (codes "ax", (codes "rax", 16))
    ∷ (codes "al", (codes "rax", 8))
    ∷ (codes "rbx", (codes "rbx", 64))
    ∷ (codes "ebx", (codes "rbx", 32))
    ∷ (codes "bx", (codes "rbx", 16))
    ∷ (codes "bl", (codes "rbx", 8))
    ∷ (codes "rcx", (codes "rcx", 64))
    ∷ (codes "ecx", (codes "rcx", 32))
    ∷ (codes "cx", (codes "rcx", 16))
    ∷ (codes "cl", (codes "rcx", 8))
    ∷ (codes "rdx", (codes "rdx", 64))
    ∷ (codes "edx", (codes "rdx", 32))
    ∷ (codes "dx", (codes "rdx", 16))
    ∷ (codes "dl", (codes "rdx", 8))
    ∷ (codes "rsi", (codes "rsi", 64))
    ∷ (codes "esi", (codes "rsi", 32))
    ∷ (codes "si", (codes "rsi", 16))
    ∷ (codes "sil", (codes "rsi", 8))
    ∷ (codes "rdi", (codes "rdi", 64))
    ∷ (codes "edi", (codes "rdi", 32))
    ∷ (codes "di", (codes "rdi", 16))
    ∷ (codes "dil", (codes "rdi", 8))
    ∷ (codes "rbp", (codes "rbp", 64))
    ∷ (codes "ebp", (codes "rbp", 32))
    ∷ (codes "bp", (codes "rbp", 16))
    ∷ (codes "bpl", (codes "rbp", 8))
    ∷ (codes "rsp", (codes "rsp", 64))
    ∷ (codes "esp", (codes "rsp", 32))
    ∷ (codes "sp", (codes "rsp", 16))
    ∷ (codes "spl", (codes "rsp", 8))
    ∷ (codes "r8", (codes "r8", 64))
    ∷ (codes "r8d", (codes "r8", 32))
    ∷ (codes "r8w", (codes "r8", 16))
    ∷ (codes "r8b", (codes "r8", 8))
    ∷ (codes "r9", (codes "r9", 64))
    ∷ (codes "r9d", (codes "r9", 32))
    ∷ (codes "r9w", (codes "r9", 16))
    ∷ (codes "r9b", (codes "r9", 8))
    ∷ (codes "r10", (codes "r10", 64))
    ∷ (codes "r10d", (codes "r10", 32))
    ∷ (codes "r10w", (codes "r10", 16))
    ∷ (codes "r10b", (codes "r10", 8))
    ∷ (codes "r11", (codes "r11", 64))
    ∷ (codes "r11d", (codes "r11", 32))
    ∷ (codes "r11w", (codes "r11", 16))
    ∷ (codes "r11b", (codes "r11", 8))
    ∷ (codes "r12", (codes "r12", 64))
    ∷ (codes "r12d", (codes "r12", 32))
    ∷ (codes "r12w", (codes "r12", 16))
    ∷ (codes "r12b", (codes "r12", 8))
    ∷ (codes "r13", (codes "r13", 64))
    ∷ (codes "r13d", (codes "r13", 32))
    ∷ (codes "r13w", (codes "r13", 16))
    ∷ (codes "r13b", (codes "r13", 8))
    ∷ (codes "r14", (codes "r14", 64))
    ∷ (codes "r14d", (codes "r14", 32))
    ∷ (codes "r14w", (codes "r14", 16))
    ∷ (codes "r14b", (codes "r14", 8))
    ∷ (codes "r15", (codes "r15", 64))
    ∷ (codes "r15d", (codes "r15", 32))
    ∷ (codes "r15w", (codes "r15", 16))
    ∷ (codes "r15b", (codes "r15", 8))
    ∷ []

abbrev pub x86_64_sse : List Register
x86_64_sse =
    (codes "xmm0", (codes "xmm0", 128))
    ∷ (codes "xmm1", (codes "xmm1", 128))
    ∷ (codes "xmm2", (codes "xmm2", 128))
    ∷ (codes "xmm3", (codes "xmm3", 128))
    ∷ (codes "xmm4", (codes "xmm4", 128))
    ∷ (codes "xmm5", (codes "xmm5", 128))
    ∷ (codes "xmm6", (codes "xmm6", 128))
    ∷ (codes "xmm7", (codes "xmm7", 128))
    ∷ (codes "xmm8", (codes "xmm8", 128))
    ∷ (codes "xmm9", (codes "xmm9", 128))
    ∷ (codes "xmm10", (codes "xmm10", 128))
    ∷ (codes "xmm11", (codes "xmm11", 128))
    ∷ (codes "xmm12", (codes "xmm12", 128))
    ∷ (codes "xmm13", (codes "xmm13", 128))
    ∷ (codes "xmm14", (codes "xmm14", 128))
    ∷ (codes "xmm15", (codes "xmm15", 128))
    ∷ []

abbrev pub i386_gprs : List Register
i386_gprs =
    (codes "eax", (codes "eax", 32))
    ∷ (codes "ax", (codes "eax", 16))
    ∷ (codes "al", (codes "eax", 8))
    ∷ (codes "ebx", (codes "ebx", 32))
    ∷ (codes "bx", (codes "ebx", 16))
    ∷ (codes "bl", (codes "ebx", 8))
    ∷ (codes "ecx", (codes "ecx", 32))
    ∷ (codes "cx", (codes "ecx", 16))
    ∷ (codes "cl", (codes "ecx", 8))
    ∷ (codes "edx", (codes "edx", 32))
    ∷ (codes "dx", (codes "edx", 16))
    ∷ (codes "dl", (codes "edx", 8))
    ∷ (codes "esi", (codes "esi", 32))
    ∷ (codes "si", (codes "esi", 16))
    ∷ (codes "edi", (codes "edi", 32))
    ∷ (codes "di", (codes "edi", 16))
    ∷ (codes "ebp", (codes "ebp", 32))
    ∷ (codes "bp", (codes "ebp", 16))
    ∷ (codes "esp", (codes "esp", 32))
    ∷ (codes "sp", (codes "esp", 16))
    ∷ []

abbrev pub memory_clobber : Str
memory_clobber = codes "memory"

unfoldable pub find_in : List Register → Str → RegClass → Option RegInfo
find_in [] name class = none
find_in ((spelling, (family, width_bits)) ∷ table) name class =
    let rest = find_in table name class in
    if str_eq spelling name
    then some (record { family = family; width_bits = width_bits; class = class })
    else rest

unfoldable pub or_else : Option RegInfo → Option RegInfo → Option RegInfo
or_else (some info) other = some info
or_else none other = other

unfoldable pub lookup_register : Str → Str → Option RegInfo
unfolding or_else
lookup_register arch_define name =
    if str_eq arch_define (codes "ARCH_X86_64")
    then or_else (find_in x86_64_gprs name gpr) (find_in x86_64_sse name sse)
    else if str_eq arch_define (codes "ARCH_I386")
    then find_in i386_gprs name gpr
    else none

-- An architecture that is not modelled trips a debug assertion, and is 64 bits wide in a release.
unfoldable pub pointer_width_bits : Str → ℕ
pointer_width_bits arch_define = if str_eq arch_define (codes "ARCH_I386") then 32 else 64

unfoldable pub is_reserved_family : Str → Bool
is_reserved_family family =
    str_eq family (codes "rsp")
    || (str_eq family (codes "rbp") || (str_eq family (codes "esp") || str_eq family (codes "ebp")))
