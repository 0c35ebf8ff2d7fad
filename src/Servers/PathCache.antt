-- ===== src/Servers/PathCache.antt =====
-- generic_server.go: the cache of the compiled paths of update masks. The compiler is a parameter.
use fulfillment_service.Common.{
  none, some, String, Result, ok, err, ◌≡◌, ◌∙◌, sym, ap, arith, Option-cases, Result-cases,
  Bool-cases, str_eq, str_eq_iff_eq, inl, inr,
}
use fulfillment_service.Common.Exec.{Exec}
use mathlib.Core.Path.{subst}
use fulfillment_service.Utils.Maps.{Map, at_key, set_key, at_key-set_key}

abbrev pub keep_path : {P : Type 0} → String → Result String P → Exec String (Map P) P
keep_path path (ok p) cache = (ok p, set_key path p cache)
keep_path path (err text) cache = (err text, cache)

module _ {P : Type 0} (compile : String → Result String P) where
  unfoldable pub compile_path : String → Exec String (Map P) P
  compile_path path cache = elim (at_key path cache) [
    | some p ↦ (ok p, cache)
    | none ↦ keep_path path (compile path) cache
  ]

  -- What the cache has of a path is what the compiler makes of it.
  abbrev pub IsFaithful : Map P → Type 0
  IsFaithful cache = (path : String) (p : P) → at_key path cache ≡ some p → compile path ≡ ok p

  -- With a faithful cache, a path is compiled to what the compiler makes of it, or to its error.
  pub compile_path_lem :
      (path : String) (cache : Map P)
      → IsFaithful cache
      → (compile_path path cache).0 ≡ compile path
  unfolding compile_path
  compile_path_lem path cache faithful = elim (Option-cases (at_key path cache)) [
    | inl absent ↦
        Result-cases (compile path) (λ p made. ground (arith, absent, made))
          (λ text failed. ground (arith, absent, failed))
    | inr (p, present) ↦ ground (arith, present, faithful path p present)
  ]

  kept_IsFaithful :
      (path : String) (p : P) (cache : Map P)
      → compile path ≡ ok p
      → IsFaithful cache
      → IsFaithful (set_key path p cache)
  kept_IsFaithful path p cache made faithful other q h = elim (Bool-cases (str_eq path other)) [
    | inl same ↦
        let equal : path ≡ other = str_eq_iff_eq path other same in
        let found : p ≡ q = ground (arith, same, at_key-set_key path other p cache) in
        sym (ap compile equal) ∙ made ∙ ap ok found
    | inr differs ↦ faithful other q (ground (arith, differs, at_key-set_key path other p cache))
  ]

  -- Compiling a path keeps the cache faithful.
  pub compile_path-IsFaithful :
      (path : String) (cache : Map P) → IsFaithful cache → IsFaithful (compile_path path cache).1
  unfolding compile_path
  compile_path-IsFaithful path cache faithful = elim (Option-cases (at_key path cache)) [
    | inl absent ↦
        Result-cases (compile path)
          (λ p made.
            subst IsFaithful (ground (arith, absent, made))
              (kept_IsFaithful path p cache made faithful))
          (λ text failed. subst IsFaithful (ground (arith, absent, failed)) faithful)
    | inr (p, present) ↦ subst IsFaithful (ground (arith, present)) faithful
  ]
