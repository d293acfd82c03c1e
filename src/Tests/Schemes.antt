-- ===== src/Tests/Schemes.antt =====
-- A scheme as the list of its kinds, newest first, and the start of the process with it.
use opsmanager_crossplane_pr.Common.{
  ◌≡◌, refl, ◌∙◌, sym, ap, true, false, Bool, ◌&&◌, ◌||◌, List, [], ◌∷◌, String, ◌==◌, string_eq,
  arith,
}
use opsmanager_crossplane_pr.Effects.{Result, ok, err}
use opsmanager_crossplane_pr.Startup.{GroupVersionKind}
use opsmanager_crossplane_pr.Startup.Process.{setups}
use opsmanager_crossplane_pr.Startup.Scheme.{GroupVersion, with_kind, SchemeLibrary, init}
use opsmanager_crossplane_pr.Startup.Scheme.Known.{listed, AddsKinds, EachKnown, setups-EachKnown}
use opsmanager_crossplane_pr.Tests.Starting.{cluster}

abbrev same_kind : GroupVersionKind → GroupVersionKind → Bool
same_kind a b = a.group == b.group && a.version == b.version && a.kind == b.kind

unfoldable among : List GroupVersionKind → GroupVersionKind → Bool
among [] k = false
among (j ∷ js) k = same_kind j k || among js k

unfoldable adding : GroupVersion → List String → List GroupVersionKind → List GroupVersionKind
adding gv [] s = s
adding gv (kind ∷ kinds) s = with_kind gv kind ∷ adding gv kinds s

among-adding :
    (gv : GroupVersion) (kinds : List String) (s : List GroupVersionKind) (kind : String)
    → listed kind kinds ≡ true
    → among (adding gv kinds s) (with_kind gv kind) ≡ true
unfolding among adding listed
among-adding gv [] s kind l = absurd (ground arith)
among-adding gv (k ∷ kinds) s kind l = ground (arith, among-adding gv kinds s kind)

among_later :
    (gv : GroupVersion) (kinds : List String) (s : List GroupVersionKind) (k : GroupVersionKind)
    → among s k ≡ true
    → among (adding gv kinds s) k ≡ true
unfolding among adding
among_later gv [] s k l = l
among_later gv (j ∷ kinds) s k l = ground (arith, among_later gv kinds s k l)

abbrev core : GroupVersionKind
core = record { group = ""; version = "v1"; kind = "Secret" }

abbrev list_scheme : SchemeLibrary
list_scheme = record {
  Scheme = List GroupVersionKind;
  new_scheme = [];
  add_client_go = λ s. ok (core ∷ s);
  add_to_scheme = λ b s. ok (adding b.group_version b.objects s);
  recognizes = among;
}

abbrev scheme_of : Result (List GroupVersionKind) → List GroupVersionKind
scheme_of (ok s) = s
scheme_of (err e) = []

list_scheme-AddsKinds : AddsKinds list_scheme
list_scheme-AddsKinds = record {
  adds = λ b s t kind p l.
      ap (λ u. among u (with_kind b.group_version kind)) (sym (ap scheme_of p))
      ∙ among-adding b.group_version b.objects s kind l;
  keeps = λ b s t k p l.
      ap (λ u. among u k) (sym (ap scheme_of p)) ∙ among_later b.group_version b.objects s k l;
}

setups-EachKnown_example : EachKnown list_scheme (scheme_of (init list_scheme)) (setups cluster)
unfolding init
setups-EachKnown_example =
    setups-EachKnown list_scheme list_scheme-AddsKinds (scheme_of (init list_scheme)) refl cluster
