-- ===== src/Factory/Generate/Available.antt =====
-- internal/factory/render.go: an output is never generated where something is.
use saas_reaper.Base.{
  String, true, some, List, [], ◌∷◌, ◌≡◌, sym, ap, subst, inl, inr, Bool-cases, ◌==◌, eq_iff,
}
use saas_reaper.Base.Map.{has}
use saas_reaper.Factory.Catalog.{DeliveryPack, find_delivery, is_listed}
use saas_reaper.Factory.Disk.{Files, unregistered_delivery, stat, lift, ◌>>=◌, ◌>>◌, turn}
use saas_reaper.Factory.Disk.Unmoved.{free_before, turn-IsUnmoved}
use saas_reaper.Factory.Disk.Keeps.{
  Keeps, NeedsFree, Yields, outcome, bind-NeedsFree_given, stat-Keeps, lift-Keeps,
}
use saas_reaper.Factory.Generate.Moved.{free_unless_has}
use saas_reaper.Factory.Validate.{Recipe}
use saas_reaper.Factory.Render.{Toolkit}
use saas_reaper.Factory.Generate.{
  generate, prepare_destination, registered, paths_of, ensure_available, refuse_unless_missing,
}
use saas_reaper.Factory.Generate.Atomic.{
  resolved-Yields, refuse_found-Keeps, refuse_unless_missing-Keeps,
}

-- Where the last look sees that there is nothing, the path was free.
look-NeedsFree :
    {A : Type 0} (p : String) (rest : Files A)
    → NeedsFree p (stat (has p) >>= λ status. refuse_unless_missing status >> rest)
unfolding stat ◌>>=◌ lift
look-NeedsFree p rest d a h = elim (Bool-cases (turn d).0.fails) [
  | inl e ↦ let w = rw e at h in cc
  | inr e ↦ elim (Bool-cases (has p (turn d).1.nodes)) [
    | inl y ↦ let w = rw (e, y) at h in cc
    | inr y ↦ free_before p d (turn d).1 (turn-IsUnmoved p d) (free_unless_has p (turn d).1.nodes y)
  ]
]

then-NeedsFree :
    {A B : Type 0} (p : String) (m : Files A) (f : A → Files B)
    → Keeps p m
    → ((a : A) → NeedsFree p (f a))
    → NeedsFree p (m >>= f)
then-NeedsFree p m f k n = bind-NeedsFree_given p m f (λ a. Unit) (λ d a h. tt) k (λ a q. n a)

first-NeedsFree :
    {A B : Type 0} (p : String) (m : Files A) (f : A → Files B)
    → NeedsFree p m
    → NeedsFree p (m >>= f)
unfolding ◌>>=◌
first-NeedsFree p m f n d b h = elim (outcome (m d)) [
  | inl (a, (after, e)) ↦ n d a (ap (λ r. r.0) e)
  | inr (x, (after, e)) ↦ let w = rw e at h in cc
]

pub ensure_available-NeedsFree :
    (p : String) (paths : List String)
    → is_listed p paths ≡ true
    → NeedsFree p (ensure_available paths)
ensure_available-NeedsFree p [] h = cc
ensure_available-NeedsFree p (path ∷ paths) h = elim (Bool-cases (path == p)) [
  | inl e ↦
      subst (λ q. NeedsFree p (ensure_available (q ∷ paths))) (sym ((eq_iff path p).0 e))
        (then-NeedsFree p _ _ (stat-Keeps p _) (λ seen.
          then-NeedsFree p _ _ (refuse_found-Keeps p seen)
            (λ u. look-NeedsFree p (ensure_available paths))))
  | inr e ↦ then-NeedsFree p _ _ (stat-Keeps p _) (λ seen.
      then-NeedsFree p _ _ (refuse_found-Keeps p seen) (λ u.
        then-NeedsFree p _ _ (stat-Keeps p _) (λ again.
          then-NeedsFree p _ _ (refuse_unless_missing-Keeps p again)
            (λ u. ensure_available-NeedsFree p paths (rw e at h)))))
]

module _ (toolkit : Toolkit) (destination absolute : String)
    (resolves : toolkit.absolute_path destination ≡ some absolute) (p : String) where
  module _ (delivery : String) (pack : DeliveryPack) (known : find_delivery delivery ≡ some pack)
      (output : is_listed p (paths_of pack.artifacts absolute) ≡ true) where
    registered-Yields :
        Yields
          (λ found. found ≡ pack)
          (lift (registered (find_delivery delivery) unregistered_delivery))
    unfolding lift
    registered-Yields d a h = let w = rw known at h in cc

    prepare_destination-NeedsFree : NeedsFree p (prepare_destination toolkit destination delivery)
    unfolding prepare_destination
    prepare_destination-NeedsFree =
        bind-NeedsFree_given p _ _ (λ a. a ≡ absolute)
          (resolved-Yields toolkit destination absolute resolves) (lift-Keeps p _)
          (λ a same.
            bind-NeedsFree_given p _ _ (λ found. found ≡ pack) registered-Yields (lift-Keeps p _)
              (λ found is. first-NeedsFree p _ _ (
                ensure_available-NeedsFree p (paths_of found.artifacts a) (
                  subst (λ a. is_listed p (paths_of found.artifacts a) ≡ true) (sym same)
                    (subst (λ found. is_listed p (paths_of found.artifacts absolute) ≡ true)
                      (sym is) output)))))

  pub generate-NeedsFree :
      (recipe : Recipe) (pack : DeliveryPack)
      → find_delivery recipe.format ≡ some pack
      → is_listed p (paths_of pack.artifacts absolute) ≡ true
      → NeedsFree p (generate toolkit recipe destination)
  unfolding generate
  generate-NeedsFree recipe pack known output = then-NeedsFree p _ _ (lift-Keeps p _) (λ valid.
      first-NeedsFree p _ _ (prepare_destination-NeedsFree recipe.format pack known output))
