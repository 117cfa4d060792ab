-- ===== src/Factory/Generate/Added.antt =====
-- internal/factory/render.go: what is added to the staging directory, and the links to skills.
use mathlib.Core.List.{append_assoc, append-nil}
use saas_reaper.Base.{
  String, false, some, List, [], ◌∷◌, ◌++◌, ◌≡◌, refl, sym, ◌∙◌, ap, subst, inl, inr, Result, ok,
  Bool-cases,
}
use saas_reaper.Base.Map.{insert, has, HasUniqueKeys, insert-HasUniqueKeys, insert_new}
use saas_reaper.Factory.Disk.{Tree, Entry, symlink, directory, Disk, Failure, call, lift, under}
use saas_reaper.Factory.Disk.Keeps.{call-Keeps}
use saas_reaper.Factory.Disk.Ensures.{
  Ensures, Holds, bind-Ensures, call-under-Ensures, call-look-Ensures, holding-Ensures,
}
use saas_reaper.Factory.Render.{skills_in}
use saas_reaper.Factory.Write.{
  symlink_at, skill_link, skill_target, platforms, link_skill, link_skills, project_skills,
}
use saas_reaper.Factory.Generate.Expected.{links_to, links_of}
use saas_reaper.Factory.Generate.Staged.{same-Spares}

-- What was there is kept, what is expected is behind it, and no name has come twice.
abbrev pub Adds : String → Tree → Result Failure Tree → Disk → Type 0
Adds root tree expected d =
    (outs : Tree) × ((expected ≡ ok outs)
      × ((HasUniqueKeys tree → HasUniqueKeys (tree ++ outs))
          × Holds root (directory (tree ++ outs)) d))

pub Adds-none :
    (root : String) (tree : Tree) (d : Disk)
    → Holds root (directory tree) d
    → Adds root tree (ok []) d
Adds-none root tree d h = (
  [],
  (
    refl,
    (
      λ u. subst HasUniqueKeys (sym (append-nil tree)) u,
      subst (λ t. Holds root (directory t) d) (sym (append-nil tree)) h,
    ),
  ),
)

-- Two parts, one after the other.
pub Adds-append :
    (root : String) (tree outs : Tree) (rest : Result Failure Tree) (d : Disk)
    → (HasUniqueKeys tree → HasUniqueKeys (tree ++ outs))
    → Adds root (tree ++ outs) rest d
    → (after : Tree) × ((rest ≡ ok after)
        × ((HasUniqueKeys tree → HasUniqueKeys (tree ++ (outs ++ after)))
            × Holds root (directory (tree ++ (outs ++ after))) d))
Adds-append root tree outs rest d u (after, (e, (v, h))) =
    let same = append_assoc tree outs after in
    (
      after,
      (
        e,
        (λ x. subst HasUniqueKeys same (v (u x)), subst (λ t. Holds root (directory t) d) same h),
      ),
    )

-- A new entry.
pub grown-HasUniqueKeys :
    (tree : Tree) (path : String) (entry : Entry)
    → has path tree ≡ false
    → HasUniqueKeys tree
    → HasUniqueKeys (tree ++ (path, entry) ∷ [])
grown-HasUniqueKeys tree path entry new u =
    subst HasUniqueKeys (insert_new path entry tree new) (insert-HasUniqueKeys path entry tree u)

-- The links of a skill.
module _ (root name : String) where
  abbrev Linked : Tree → String → Disk → Type 0
  Linked tree platform d =
      (has (skill_link platform name) tree ≡ false)
      × Holds root
          (directory (tree ++ (skill_link platform name, symlink (skill_target name)) ∷ [])) d

  link_one-Ensures :
      (tree : Tree) (platform : String) (e : Failure)
      → Ensures
          (Holds root (directory tree))
          (call (under root (symlink_at (skill_link platform name) (skill_target name))) e)
          (λ done. Linked tree platform)
  unfolding Ensures
  link_one-Ensures tree platform e d h a x =
      let (after, (w, k)) =
        call-under-Ensures root tree (symlink_at (skill_link platform name) (skill_target name)) e d
          h a x in
      elim (Bool-cases (has (skill_link platform name) tree)) [
        | inl y ↦ let v = rw y at w in cc
        | inr y ↦
            let same : insert (skill_link platform name) (symlink (skill_target name)) tree
                ≡ after =
              let v = rw y at w in cc in
            (
              y,
              subst
                  (λ t.
                    Holds root (directory t)
                      (call (under root (symlink_at (skill_link platform name) (skill_target name)))
                        e d).1)
                  (sym same
                    ∙ insert_new (skill_link platform name) (symlink (skill_target name)) tree y)
                  k,
            )
      ]

  link_skill-Ensures :
      (later : List String) (tree : Tree)
      → Ensures
          (Holds root (directory tree))
          (link_skill root name later)
          (λ done. Adds root tree (ok (links_to name later)))
  unfolding Ensures lift
  link_skill-Ensures [] tree = λ d h a e. Adds-none root tree d h
  link_skill-Ensures (platform ∷ later) tree =
      bind-Ensures _ _ (Holds root (directory tree)) (λ made. Holds root (directory tree))
        (λ done. Adds root tree (ok (links_to name (platform ∷ later))))
        (holding-Ensures root (directory tree) _ (call-Keeps root _ _ (same-Spares root)))
        (λ made.
          bind-Ensures _ _ (Holds root (directory tree)) (λ done. Linked tree platform)
            (λ done. Adds root tree (ok (links_to name (platform ∷ later))))
            (link_one-Ensures tree platform _)
            (λ done d (new, h) x y.
              let rest =
                link_skill-Ensures later
                  (tree ++ (skill_link platform name, symlink (skill_target name)) ∷ []) d h x y in
              let (after, (z, v)) =
                Adds-append root tree ((skill_link platform name, symlink (skill_target name)) ∷ [])
                  (ok (links_to name later)) (link_skill root name later d).1
                  (grown-HasUniqueKeys tree _ _ new) rest in
              (
                (skill_link platform name, symlink (skill_target name)) ∷ after,
                (let same : links_to name later ≡ after = cc in rw same refl, v),
              )))

module _ (root : String) where
  link_skills-Ensures :
      (names : List String) (tree : Tree)
      → Ensures
          (Holds root (directory tree))
          (link_skills root names)
          (λ done. Adds root tree (ok (links_of names)))
  unfolding Ensures lift
  link_skills-Ensures [] tree = λ d h a e. Adds-none root tree d h
  link_skills-Ensures (name ∷ names) tree =
      bind-Ensures _ _ (Holds root (directory tree))
        (λ done. Adds root tree (ok (links_to name platforms)))
        (λ done. Adds root tree (ok (links_of (name ∷ names))))
        (link_skill-Ensures root name platforms tree)
        (λ done d (outs, (e, (u, h))) x y.
          let rest = link_skills-Ensures names (tree ++ outs) d h x y in
          let (after, (z, v)) =
            Adds-append root tree outs (ok (links_of names)) (link_skills root names d).1 u rest in
          let first : links_to name platforms ≡ outs = cc in
          let second : links_of names ≡ after = cc in
          (
            outs ++ after,
            (ap ok (ap (λ t. t ++ links_of names) first ∙ ap (λ t. outs ++ t) second), v),
          ))

  abbrev pub AddsLinks : Tree → Disk → Type 0
  AddsLinks tree d =
      (names : List String) × ((skills_in tree ≡ some names)
        × Adds root tree (ok (links_of names)) d)

  pub project_skills-Ensures :
      (tree : Tree)
      → Ensures (Holds root (directory tree)) (project_skills root) (λ done. AddsLinks tree)
  unfolding Ensures project_skills
  project_skills-Ensures tree =
      bind-Ensures _ _ (Holds root (directory tree))
        (λ names d. (skills_in tree ≡ some names) × Holds root (directory tree) d)
        (λ done. AddsLinks tree) (call-look-Ensures root tree skills_in _)
        (λ names d (e, h) x y. (names, (e, link_skills-Ensures names tree d h x y)))
