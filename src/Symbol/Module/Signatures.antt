-- ===== src/Symbol/Module/Signatures.antt =====
-- The function-pointer signatures of src/symbol/module.rs, one id for each.
use aspect.Prelude.{ℕ, Bool, true, false, ◌&&◌, Option, none, some, List, [], ◌∷◌, ◌++◌, length}
use aspect.Prelude.Checked.{Checked, ◌>>!◌, returns, index, expect_u32}
use aspect.Lexer.LangType.{LangType, type_eq}
use aspect.Symbol.Module.{FnPtrSig, ModuleSymbols}
use aspect.Symbol.Module.Bodies.{position}

-- The derived `==` on `Vec<LangType>`.
unfoldable pub types_eq : List LangType → List LangType → Bool
types_eq [] [] = true
types_eq [] (u ∷ us) = false
types_eq (t ∷ ts) [] = false
types_eq (t ∷ ts) (u ∷ us) = type_eq t u && types_eq ts us

-- The derived `==` on `FnPtrSig`.
unfoldable pub sig_eq : FnPtrSig → FnPtrSig → Bool
unfolding types_eq
sig_eq s t = types_eq s.params t.params && type_eq s.return_type t.return_type

unfoldable pub sig_at : ModuleSymbols → FnPtrSig → Option ℕ → Checked (ModuleSymbols × ℕ)
unfolding expect_u32
sig_at m sig (some found) = expect_u32 found >>! λ id. returns (m, id)
sig_at m sig none = expect_u32 (length m.fnptr_sigs) >>! λ id.
    returns (record m { fnptr_sigs = m.fnptr_sigs ++ sig ∷ [] }, id)

unfoldable pub intern_sig : ModuleSymbols → FnPtrSig → Checked (ModuleSymbols × ℕ)
unfolding sig_at position sig_eq
intern_sig m sig = sig_at m sig (position (λ s. sig_eq s sig) m.fnptr_sigs)

unfoldable pub intern_fnptr : ModuleSymbols → List LangType → LangType → Checked (ModuleSymbols × ℕ)
unfolding intern_sig
intern_fnptr m params return_type =
    intern_sig m (record { params = params; return_type = return_type })

unfoldable pub fnptr_sig : ModuleSymbols → ℕ → Checked FnPtrSig
fnptr_sig m id = index m.fnptr_sigs id
