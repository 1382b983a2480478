-- ===== src/Symbol/Module/Kinds.antt =====
-- The kind of a named type of src/symbol/module.rs, under the operations that change the table.
use aspect.Prelude.{ℕ, ◌≡◌, sym, ap, subst, ◌∙◌, inl, inr, some, List, Str, get_elem?}
use aspect.Prelude.Checked.{Checked, returns, >>!-eq-returns, returns-inj, Changed}
use aspect.Lexer.Position.{Position}
use aspect.Symbol.Module.{
  FieldInfo, MethodSig, SumVariant, Visibility, TypeKind, TypeDef, ModuleSymbols,
}
use aspect.Symbol.Module.Registry.{mark_defined, with_def}
use aspect.Symbol.Module.Bodies.{
  kind_with_fields, kind_with_enum_variants, kind_with_sum_variants, kind_with_method, define_body,
  change_body, on_type, set_fields, set_enum_variants, set_sum_variants, add_method,
}
use aspect.Symbol.Module.Signatures.{intern_fnptr}
use aspect.Symbol.Module.WellFormed.{Changed-reads, on_type-eq, snoc-keeps}
use aspect.Symbol.Module.Fields.{filled, changed}
use aspect.Symbol.Module.Interning.{Interned, fresh_def, intern_type-Interned, define_alias-eq}
use aspect.Symbol.Module.Reached.{
  Step, interned_type, defined_alias, fields_set, enum_variants_set, sum_variants_set, method_added,
  function_added, fnptr_interned, add_function-types, intern_sig-types,
}

pub data Shape : Type 0 where
  struct_shape enum_shape sum_shape alias_shape : Shape

unfoldable pub shape : TypeKind → Shape
shape (TypeKind.struct body) = struct_shape
shape (TypeKind.enum body) = enum_shape
shape (TypeKind.sum body) = sum_shape
shape (TypeKind.alias ty) = alias_shape

-- The id stands for a definition of that shape.
pub record HasShape (types : List TypeDef) (id : ℕ) (s : Shape) : Type 0 where
  pub def : TypeDef
  pub at_id : get_elem? types id ≡ some def
  pub has_shape : shape def.kind ≡ s

unfoldable KeepsShape : (TypeDef → Checked TypeDef) → Type 0
KeepsShape f = (d d' : TypeDef) → f d ≡ returns d' → shape d'.kind ≡ shape d.kind

Changed-HasShape :
    (f : TypeDef → Checked TypeDef) {xs ys : List TypeDef} {i : ℕ} (id : ℕ) (s : Shape)
    → Changed f xs i ys
    → KeepsShape f
    → HasShape xs id s
    → HasShape ys id s
unfolding KeepsShape
Changed-HasShape f id s c k h = elim (Changed-reads f c id h.def h.at_id) [
  | inl (same, now) ↦ record {
    def = c.now;
    at_id = now;
    has_shape = k c.old c.now c.made ∙ ap (λ d. shape d.kind) same ∙ h.has_shape;
  }
  | inr kept ↦ record { def = h.def; at_id = kept; has_shape = h.has_shape }
]

FillKeepsShape : (TypeKind → Checked TypeKind) → Type 0
FillKeepsShape fill = (k k' : TypeKind) → fill k ≡ returns k' → shape k' ≡ shape k

define_body-KeepsShape :
    (fill : TypeKind → Checked TypeKind) → FillKeepsShape fill → KeepsShape (define_body fill)
unfolding KeepsShape define_body FillKeepsShape
define_body-KeepsShape fill keeps d d' h =
    let (k, r, e) = >>!-eq-returns (fill d.kind) (filled d) h in
    subst (λ x. shape x.kind ≡ shape d.kind) (returns-inj e) (keeps d.kind k r)

change_body-KeepsShape :
    (fill : TypeKind → Checked TypeKind) → FillKeepsShape fill → KeepsShape (change_body fill)
unfolding KeepsShape change_body FillKeepsShape
change_body-KeepsShape fill keeps d d' h =
    let (k, r, e) = >>!-eq-returns (fill d.kind) (changed d) h in
    subst (λ x. shape x.kind ≡ shape d.kind) (returns-inj e) (keeps d.kind k r)

mark_defined-KeepsShape : KeepsShape mark_defined
unfolding KeepsShape mark_defined
mark_defined-KeepsShape d d' h = ap (λ x. shape x.kind) (sym (returns-inj h))

fields-FillKeepsShape : (fields : List FieldInfo) → FillKeepsShape (kind_with_fields fields)
unfolding FillKeepsShape kind_with_fields shape
fields-FillKeepsShape fields (TypeKind.struct body) k' h = ap shape (sym (returns-inj h))
fields-FillKeepsShape fields _ k' h = cc

enum_variants-FillKeepsShape :
    (variants : List Str) → FillKeepsShape (kind_with_enum_variants variants)
unfolding FillKeepsShape kind_with_enum_variants shape
enum_variants-FillKeepsShape variants (TypeKind.enum body) k' h = ap shape (sym (returns-inj h))
enum_variants-FillKeepsShape variants _ k' h = cc

sum_variants-FillKeepsShape :
    (variants : List SumVariant) → FillKeepsShape (kind_with_sum_variants variants)
unfolding FillKeepsShape kind_with_sum_variants shape
sum_variants-FillKeepsShape variants (TypeKind.sum body) k' h = ap shape (sym (returns-inj h))
sum_variants-FillKeepsShape variants _ k' h = cc

method-FillKeepsShape : (name : Str) (sig : MethodSig) → FillKeepsShape (kind_with_method name sig)
unfolding FillKeepsShape kind_with_method shape
method-FillKeepsShape name sig (TypeKind.struct body) k' h = ap shape (sym (returns-inj h))
method-FillKeepsShape name sig _ k' h = cc

Interned-HasShape :
    {m after : ModuleSymbols} {name : Str} {file_id : ℕ} {vis : Visibility} {pos : Position}
    {kind : TypeKind} {new_id : ℕ} (id : ℕ) (s : Shape)
    → Interned m name file_id vis pos kind after new_id
    → HasShape m.types id s
    → HasShape after.types id s
unfolding with_def
Interned-HasShape id s (Interned.known e) h = h
Interned-HasShape {m} {name = name} {file_id} {vis} {pos} {kind} id s (Interned.added e) h =
    record {
      def = h.def;
      at_id = snoc-keeps m.types (fresh_def m name file_id vis pos kind) h.def id h.at_id;
      has_shape = h.has_shape;
    }

on_type-HasShape :
    (f : TypeDef → Checked TypeDef) (m after : ModuleSymbols) (at id : ℕ) (s : Shape)
    → KeepsShape f
    → on_type f m at ≡ returns after
    → HasShape m.types id s
    → HasShape after.types id s
on_type-HasShape f m after at id s k h = Changed-HasShape f id s (on_type-eq f m after at h).0 k

same-HasShape :
    (m after : ModuleSymbols) (id : ℕ) (s : Shape)
    → after.types ≡ m.types
    → HasShape m.types id s
    → HasShape after.types id s
same-HasShape m after id s e = subst (λ ts. HasShape ts id s) (sym e)

-- No operation takes a definition away from its id, or changes its kind.
pub Step-HasShape :
    (m after : ModuleSymbols) (id : ℕ) (s : Shape)
    → Step m after
    → HasShape m.types id s
    → HasShape after.types id s
unfolding set_fields set_enum_variants set_sum_variants add_method intern_fnptr
Step-HasShape m after id s (interned_type name file_id new_id vis pos kind fits h) =
    Interned-HasShape id s (intern_type-Interned m name file_id vis pos kind after new_id h)
Step-HasShape m after id s (defined_alias name ty file_id new_id pos h) =
    let (middle, first, changed, names) = define_alias-eq m after name ty file_id new_id pos h in
    λ has.
      Changed-HasShape mark_defined id s changed mark_defined-KeepsShape
        (Interned-HasShape id s first has)
Step-HasShape m after id s (fields_set at fields h) =
    on_type-HasShape (define_body (kind_with_fields fields)) m after at id s
      (define_body-KeepsShape (kind_with_fields fields) (fields-FillKeepsShape fields)) h
Step-HasShape m after id s (enum_variants_set at variants h) =
    on_type-HasShape (define_body (kind_with_enum_variants variants)) m after at id s
      (define_body-KeepsShape (kind_with_enum_variants variants)
        (enum_variants-FillKeepsShape variants))
      h
Step-HasShape m after id s (sum_variants_set at variants h) =
    on_type-HasShape (define_body (kind_with_sum_variants variants)) m after at id s
      (define_body-KeepsShape (kind_with_sum_variants variants)
        (sum_variants-FillKeepsShape variants))
      h
Step-HasShape m after id s (method_added at name sig h) =
    on_type-HasShape (change_body (kind_with_method name sig)) m after at id s
      (change_body-KeepsShape (kind_with_method name sig) (method-FillKeepsShape name sig)) h
Step-HasShape m after id s (function_added func h) =
    same-HasShape m after id s (add_function-types m after func h).0
Step-HasShape m after id s (fnptr_interned params return_type new_id h) =
    same-HasShape m after id s
      (intern_sig-types m after (record { params = params; return_type = return_type }) new_id h).0
