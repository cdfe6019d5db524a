-- ===== src/SimDoc/Cut/Partition.antt =====
-- What a cut of the packages promises, whether it is read or derived.
use mathlib.Core.Option.{some_inj}
use sim_tooling.Support.{
  String, ◌≡◌, refl, sym, subst, ap, ◌∙◌, ◌↔◌, ◌⊎◌, inl, inr, Bool, true, false, not, ◌&&◌, Option,
  none, some, List, [], ◌∷◌, Result, ok, err, >>-ok-elim, >>=-ok-elim, refuse_if, refuse_if-ok,
  ok-inj, Bool-cases, Option-cases, if◌then◌else◌, same_key, same_key_iff, text_order, arith,
}
use sim_tooling.Support.Sets
use sim_tooling.Support.Maps
use sim_tooling.Support.Maps.{Map, keys, get}
use sim_tooling.SimDoc.Cut.{
  SplitCut, group_not_ordered, unterminated_array, missing_group_order, missing_groups, Reading,
  assign, assign_all, refuse_first, finish, parse_split_cut, all_in_workspace, derive_split_cut,
  load_or_derive_split_cut,
}

-- A group of the list has the package.
abbrev Has : Map String (List String) → String → String → Type 0
Has [] name group = ◌≡◌ {A = Bool} true false
Has ((g, names) ∷ rest) name group =
    ((g ≡ group) × (Sets.contains names name ≡ true)) ⊎ Has rest name group

-- The groups that are ordered are those that have packages, and a package is assigned to a group
-- exactly when the group lists it; so no package is in two groups.
pub record IsPartition (cut : SplitCut) : Type 0 where
  pub same_groups :
      (g : String) → Sets.contains cut.group_order g ≡ Sets.contains (keys cut.groups) g
  pub assigned : (name g : String) → (get cut.package_groups name ≡ some g) ↔ Has cut.groups name g

assign-get :
    (group : String) (names : List String) (before after : Map String String)
    → assign group names before ≡ ok after
    → (name g : String)
    → (get after name ≡ some g)
      ↔ (((group ≡ g) × (Sets.contains names name ≡ true)) ⊎ (get before name ≡ some g))
unfolding assign Sets.contains
assign-get group [] before after h name g = (
  λ e. inr (ap (λ m. get m name) (ok-inj h) ∙ e),
  λ e. elim e [ inl both ↦ cc | inr old ↦ ap (λ m. get m name) (sym (ok-inj h)) ∙ old ],
)
assign-get group (first ∷ rest) before after h name g = elim (Option-cases (get before first)) [
  | inr (previous, taken) ↦ cc (rw (assign, taken) at h)
  | inl free ↦
      let later : assign group rest (Maps.insert first group before) ≡ ok after =
        rw (assign, free) at h in
      let ih = assign-get group rest (Maps.insert first group before) after later name g in
      let read = Maps.get-insert first name group before in
      elim (Bool-cases (same_key name first)) [
        | inl s ↦
            let here : get (Maps.insert first group before) name ≡ some group = rw s at read in
            let new : get before name ≡ none =
              ap (get before) ((same_key_iff name first).0 s) ∙ free in
            rw s (
              λ e. elim (ih.0 e) [
                | inl both ↦ inl (both.0, refl)
                | inr k ↦ inl (some_inj.0 (sym here ∙ k), refl)
              ],
              λ e. elim e [ inl both ↦ ih.1 (inr (here ∙ ap some both.0)) | inr old ↦ cc ],
            )
        | inr s ↦
            let there : get (Maps.insert first group before) name ≡ get before name =
              rw s at read in
            rw s (
              λ e. elim (ih.0 e) [ inl both ↦ inl both | inr k ↦ inr (sym there ∙ k) ],
              λ e. elim e [ inl both ↦ ih.1 (inl both) | inr old ↦ ih.1 (inr (there ∙ old)) ],
            )
      ]
]

assign_all-get :
    (order : List String) (groups : Map String (List String)) (before after : Map String String)
    → assign_all order groups before ≡ ok after
    → (name g : String)
    → (get after name ≡ some g) ↔ (Has groups name g ⊎ (get before name ≡ some g))
unfolding assign_all
assign_all-get order [] before after h name g = (
  λ e. inr (ap (λ m. get m name) (ok-inj h) ∙ e),
  λ e. elim e [ inl never ↦ cc | inr old ↦ ap (λ m. get m name) (sym (ok-inj h)) ∙ old ],
)
assign_all-get order ((group, names) ∷ rest) before after h name g =
    >>-ok-elim (refuse_if (not (Sets.contains order group)) (group_not_ordered group)) _ h λ _ h₁.
      >>=-ok-elim (assign group names before) (assign_all order rest) h₁ λ middle first later.
        let ih = assign_all-get order rest middle after later name g in
        let step = assign-get group names before middle first name g in
        (
          λ e. elim (ih.0 e) [
            | inl has ↦ inl (inr has)
            | inr k ↦ elim (step.0 k) [ inl both ↦ inl (inl both) | inr old ↦ inr old ]
          ],
          λ e. elim e [
            | inl has ↦ elim has [
              | inl both ↦ ih.1 (inr (step.1 (inl both)))
              | inr more ↦ ih.1 (inl more)
            ]
            | inr old ↦ ih.1 (inr (step.1 (inr old)))
          ],
        )

assign_all-ordered :
    (order : List String) (groups : Map String (List String)) (before after : Map String String)
    → assign_all order groups before ≡ ok after
    → (g : String) → Sets.contains (keys groups) g ≡ true
    → Sets.contains order g ≡ true
unfolding assign_all Sets.contains
assign_all-ordered order [] before after h g listed = cc
assign_all-ordered order ((group, names) ∷ rest) before after h g listed =
    >>-ok-elim (refuse_if (not (Sets.contains order group)) (group_not_ordered group)) _ h
      λ accepted h₁.
        >>=-ok-elim (assign group names before) (assign_all order rest) h₁ λ middle first later.
          elim (Bool-cases (same_key g group)) [
            | inl same ↦
                ap (Sets.contains order) ((same_key_iff g group).0 same)
                ∙ ground (
                  arith,
                  refuse_if-ok (not (Sets.contains order group)) (group_not_ordered group) accepted,
                )
            | inr other ↦ assign_all-ordered order rest middle after later g (rw other at listed)
          ]

refuse_first-nil : (gs : List String) → refuse_first gs ≡ ok tt → gs ≡ []
unfolding refuse_first
refuse_first-nil [] h = refl
refuse_first-nil (g ∷ gs) h = cc

same_of_implied : (a b : Bool) → (b ≡ true → a ≡ true) → (a && not b) ≡ false → a ≡ b
same_of_implied a b f h = ground (arith, Bool-cases b, f)

finish-IsPartition : (r : Reading) (cut : SplitCut) → finish r ≡ ok cut → IsPartition cut
unfolding finish
finish-IsPartition r cut h =
    >>-ok-elim (elim r.active_array [ none ↦ ok tt | some name ↦ err (unterminated_array name) ]) _
      h
      λ _ h₁.
        >>-ok-elim (elim r.group_order [ [] ↦ err missing_group_order | _ ∷ _ ↦ ok tt ]) _ h₁
          λ _ h₂.
            >>-ok-elim (elim r.groups [ [] ↦ err missing_groups | _ ∷ _ ↦ ok tt ]) _ h₂
              λ _ h₃. >>=-ok-elim (assign_all r.group_order r.groups []) _ h₃ λ assigned given h₄.
                >>-ok-elim
                  (refuse_first (Sets.difference (Sets.from_list r.group_order) (keys r.groups))) _
                  h₄
                  λ covered h₅.
                    let none_left : (g : String)
                        → (Sets.contains r.group_order g && not (Sets.contains (keys r.groups) g))
                          ≡ false =
                      λ g.
                        ap (λ c. c && not (Sets.contains (keys r.groups) g))
                          (sym (Sets.contains-from_list g r.group_order))
                        ∙ (sym (
                              Sets.contains-difference g (Sets.from_list r.group_order)
                                (keys r.groups))
                            ∙ (ap (λ xs. Sets.contains xs g)
                                  (refuse_first-nil
                                    (Sets.difference (Sets.from_list r.group_order) (keys r.groups))
                                    covered)
                                ∙ Sets.contains-nil g)) in
                    subst IsPartition (ok-inj h₅) (record {
                      same_groups = λ g.
                          same_of_implied (Sets.contains r.group_order g)
                            (Sets.contains (keys r.groups) g)
                            (assign_all-ordered r.group_order r.groups [] assigned given g)
                            (none_left g);
                      assigned = λ name g.
                          let all =
                            assign_all-get r.group_order r.groups [] assigned given name g in
                          (
                            λ e. elim (all.0 e) [
                              | inl has ↦ has
                              | inr old ↦ cc (Maps.get-nil name)
                            ],
                            λ has. all.1 (inl has),
                          );
                    })

get-all_in_workspace :
    (names : List String) (m : Map String String) (name : String)
    → get (all_in_workspace names m) name
      ≡ (if Sets.contains names name then some "workspace" else get m name)
unfolding all_in_workspace Sets.contains
get-all_in_workspace [] m name = refl
get-all_in_workspace (first ∷ rest) m name =
    get-all_in_workspace rest (Maps.insert first "workspace" m) name
    ∙ ground (arith, Maps.get-insert first name "workspace" m, Bool-cases (Sets.contains rest name))

derive_split_cut-IsPartition :
    (names : List String) (cut : SplitCut) → derive_split_cut names ≡ ok cut → IsPartition cut
unfolding derive_split_cut
derive_split_cut-IsPartition [] cut h = cc
derive_split_cut-IsPartition (first ∷ rest) cut h = subst IsPartition (ok-inj h) (record {
  same_groups = λ g. refl;
  assigned = λ name g.
      let read = get-all_in_workspace (first ∷ rest) [] name in
      elim (Bool-cases (Sets.contains (first ∷ rest) name)) [
        | inl listed ↦
            let value = rw listed at read in
            (
              λ e. inl (some_inj.0 (sym value ∙ e), listed),
              λ e. elim e [ inl both ↦ value ∙ ap some both.0 | inr never ↦ cc ],
            )
        | inr absent ↦
            let value = rw absent at read in
            (λ e. cc (Maps.get-nil name), λ e. elim e [ inl both ↦ cc | inr never ↦ cc ])
      ];
})

-- Whatever the packages are, whether a file gives the cut and whatever the file holds: where a cut
-- is returned, its group order names exactly the groups that have a list of packages, and a package
-- is assigned to a group exactly when that group lists it.
pub load_or_derive_split_cut-IsPartition :
    (contents : Option (Result String String)) (names : List String) (cut : SplitCut)
    → load_or_derive_split_cut contents names ≡ ok cut
    → IsPartition cut
unfolding load_or_derive_split_cut parse_split_cut
load_or_derive_split_cut-IsPartition none names cut h = derive_split_cut-IsPartition names cut h
load_or_derive_split_cut-IsPartition (some (ok text)) names cut h = finish-IsPartition _ cut h
load_or_derive_split_cut-IsPartition (some (err e)) names cut h = cc
