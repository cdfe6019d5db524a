-- ===== src/Overlap/Coverage/Complete.antt =====
-- What `protocol_coverage_findings` counts and finds.
use sim_tooling.Support.{
  ◌+◌, String, ◌≡◌, refl, sym, ap, ap₂, ◌∙◌, inl, inr, Bool, true, false, not, ◌&&◌, ◌||◌, List, [],
  ◌∷◌, ◌++◌, count, Bool-cases, if◌then◌else◌, same_key, text_order, arith,
}
use sim_tooling.Support.Sets
use sim_tooling.Support.Maps.{values}
use sim_tooling.Overlap.Coverage.{
  CoverageExemption, CoveragePolicy, ProtocolRelation, ProtocolResolution, resolved, unresolved,
  IndexDoc, Coverage, Finding, uncovered_protocol, stale_coverage_exemption, is_reachable,
  is_exempt, cover, visit_relation, visit_relations, stale_exemptions, protocol_coverage_findings,
}

-- The finding of a relation that is uncovered or not.
abbrev pub finding_if : Bool → ProtocolRelation → ProtocolResolution → List Finding
finding_if false r resolution = []
finding_if true r unresolved = []
finding_if true r (resolved protocol) = uncovered_protocol protocol r.implementor r.anchor ∷ []

module _ (doc : IndexDoc) (policy : CoveragePolicy) where
  -- The relation implements a configured protocol.
  abbrev pub applies : ProtocolRelation → Bool
  applies r = elim r.resolution [
    | unresolved ↦ false
    | resolved protocol ↦ Sets.contains policy.protocols protocol
  ]

  -- And no feature claims it, and no exemption excuses it.
  abbrev pub is_uncovered : ProtocolRelation → Bool
  is_uncovered r =
      applies r && (not (is_reachable doc policy r.anchor) && not (is_exempt doc policy r.anchor))

  -- A relation of the list applies to the anchor.
  abbrev pub names_anchor : List ProtocolRelation → String → Bool
  names_anchor [] anchor = false
  names_anchor (r ∷ rest) anchor =
      (applies r && same_key anchor r.anchor) || names_anchor rest anchor

  -- And a feature reaches its anchor.
  abbrev pub is_covered : ProtocolRelation → Bool
  is_covered r = applies r && is_reachable doc policy r.anchor

  -- Or no feature does, and an exemption names its anchor.
  abbrev pub is_excused : ProtocolRelation → Bool
  is_excused r =
      applies r && (not (is_reachable doc policy r.anchor) && is_exempt doc policy r.anchor)

  -- The findings of the uncovered relations, in their order.
  abbrev pub uncovered_findings : List ProtocolRelation → List Finding
  uncovered_findings [] = []
  uncovered_findings (r ∷ rest) =
      finding_if (is_uncovered r) r r.resolution ++ uncovered_findings rest

  -- What a list of relations adds to the counts, the findings and the anchors.
  record Adds (rs : List ProtocolRelation) (c d : Coverage) : Type 0 where
    applicable_count : d.classification.applicable ≡ c.classification.applicable + count applies rs
    covered_count : d.classification.covered ≡ c.classification.covered + count is_covered rs
    exempt_count : d.classification.exempt ≡ c.classification.exempt + count is_excused rs
    uncovered_count :
        d.classification.uncovered ≡ c.classification.uncovered + count is_uncovered rs
    found : d.findings ≡ c.findings ++ uncovered_findings rs
    sum :
        d.classification.covered + d.classification.exempt + c.classification.applicable
          + d.classification.uncovered
        ≡ c.classification.covered + c.classification.exempt + d.classification.applicable
          + c.classification.uncovered
    anchors :
        (a : String)
        → Sets.contains d.applicable a ≡ (Sets.contains c.applicable a || names_anchor rs a)

  append_nil : {A : Type 0} (xs : List A) → xs ≡ xs ++ []
  append_nil [] = refl
  append_nil (x ∷ xs) = ap (λ zs. x ∷ zs) (append_nil xs)

  append_assoc : {A : Type 0} (xs ys zs : List A) → (xs ++ ys) ++ zs ≡ xs ++ (ys ++ zs)
  append_assoc [] ys zs = refl
  append_assoc (x ∷ xs) ys zs = ap (λ ws. x ∷ ws) (append_assoc xs ys zs)

  not_uncovered : (r : ProtocolRelation) → is_uncovered r ≡ false → uncovered_findings (r ∷ []) ≡ []
  not_uncovered r h = ap (λ x. finding_if x r r.resolution ++ []) h

  Adds-none : (r : ProtocolRelation) (c : Coverage) → applies r ≡ false → Adds (r ∷ []) c c
  Adds-none r c h = record {
    applicable_count = rw h (omega arith);
    covered_count = rw h (omega arith);
    exempt_count = rw h (omega arith);
    uncovered_count = rw h (omega arith);
    found = append_nil c.findings ∙ ap (λ x. c.findings ++ x) (sym (not_uncovered r (rw h refl)));
    sum = omega arith;
    anchors = λ a. rw h (ground arith);
  }

  cover-Adds :
      (r : ProtocolRelation) (c : Coverage) (protocol : String)
      → r.resolution ≡ resolved protocol
      → applies r ≡ true
      → Adds (r ∷ []) c (cover doc policy c r protocol)
  unfolding cover
  cover-Adds r c protocol same h = elim (Bool-cases (is_reachable doc policy r.anchor)) [
    | inl e ↦ rw e (record {
      applicable_count = rw h (omega arith);
      covered_count = rw (h, e) (omega arith);
      exempt_count = rw (h, e) (omega arith);
      uncovered_count = rw (h, e) (omega arith);
      found =
          append_nil c.findings
          ∙ ap (λ x. c.findings ++ x) (sym (not_uncovered r (rw (h, e) refl)));
      sum = omega arith;
      anchors = λ a. Sets.contains-insert r.anchor a c.applicable ∙ rw h (ground arith);
    })
    | inr e ↦ elim (Bool-cases (is_exempt doc policy r.anchor)) [
      | inl f ↦
          rw (e, f)
            (record {
              applicable_count = rw h (omega arith);
              covered_count = rw (h, e) (omega arith);
              exempt_count = rw (h, e, f) (omega arith);
              uncovered_count = rw (h, e, f) (omega arith);
              found =
                  append_nil c.findings
                  ∙ ap (λ x. c.findings ++ x) (sym (not_uncovered r (rw (h, e, f) refl)));
              sum = omega arith;
              anchors = λ a. Sets.contains-insert r.anchor a c.applicable ∙ rw h (ground arith);
            })
      | inr f ↦
          rw (e, f)
            (record {
              applicable_count = rw h (omega arith);
              covered_count = rw (h, e) (omega arith);
              exempt_count = rw (h, e, f) (omega arith);
              uncovered_count = rw (h, e, f) (omega arith);
              found =
                  let u : is_uncovered r ≡ true = rw (h, e, f) refl in
                  ap (λ x. c.findings ++ x)
                    (sym (
                      ap (λ x. finding_if x r r.resolution ++ []) u
                      ∙ ap (λ x. finding_if true r x ++ []) same));
              sum = omega arith;
              anchors = λ a. Sets.contains-insert r.anchor a c.applicable ∙ rw h (ground arith);
            })
    ]
  ]

  Adds-then :
      (r : ProtocolRelation) (rs : List ProtocolRelation) (c d e : Coverage)
      → Adds (r ∷ []) c d
      → Adds rs d e
      → Adds (r ∷ rs) c e
  Adds-then r rs c d e first later = record {
    applicable_count = later.applicable_count ∙ rw (first.applicable_count) (omega arith);
    uncovered_count = later.uncovered_count ∙ rw (first.uncovered_count) (omega arith);
    covered_count = later.covered_count ∙ rw (first.covered_count) (omega arith);
    exempt_count = later.exempt_count ∙ rw (first.exempt_count) (omega arith);
    found =
        later.found
        ∙ (ap (λ x. x ++ uncovered_findings rs) first.found
            ∙ (append_assoc c.findings (uncovered_findings (r ∷ [])) (uncovered_findings rs)
                ∙ ap (λ x. c.findings ++ (x ++ uncovered_findings rs))
                    (sym (append_nil (finding_if (is_uncovered r) r r.resolution)))));
    sum = (let u = first.sum in let v = later.sum in omega arith);
    anchors = λ a. later.anchors a ∙ rw (first.anchors a) (ground arith);
  }

  visit_relation-Adds :
      (c : Coverage) (r : ProtocolRelation) (resolution : ProtocolResolution)
      → r.resolution ≡ resolution
      → Adds (r ∷ []) c (visit_relation doc policy c r resolution)
  unfolding visit_relation
  visit_relation-Adds c r unresolved e = Adds-none r c (rw e refl)
  visit_relation-Adds c r (resolved p) e = elim (Bool-cases (Sets.contains policy.protocols p)) [
    | inl h ↦ rw h (cover-Adds r c p e (rw (e, h) refl))
    | inr h ↦ rw h (Adds-none r c (rw (e, h) refl))
  ]

  visit_relations-Adds :
      (c : Coverage) (rs : List ProtocolRelation) → Adds rs c (visit_relations doc policy c rs)
  unfolding visit_relations
  visit_relations-Adds c [] = record {
    applicable_count = omega arith;
    uncovered_count = omega arith;
    covered_count = omega arith;
    exempt_count = omega arith;
    found = append_nil c.findings;
    sum = omega arith;
    anchors = λ a. ground arith;
  }
  visit_relations-Adds c (r ∷ rs) =
      Adds-then r rs c (visit_relation doc policy c r r.resolution)
        (visit_relations doc policy (visit_relation doc policy c r r.resolution) rs)
        (visit_relation-Adds c r r.resolution refl)
        (visit_relations-Adds (visit_relation doc policy c r r.resolution) rs)

  -- The findings of the exemptions that no relation needs.
  abbrev pub stale_findings : List ProtocolRelation → List CoverageExemption → List Finding
  stale_findings rs [] = []
  stale_findings rs (e ∷ es) =
      let later = stale_findings rs es in
      if names_anchor rs e.anchor then later else stale_coverage_exemption e.anchor e.reason ∷ later

  stale_exemptions_lem :
      (applicable : List String) (rs : List ProtocolRelation) (es : List CoverageExemption)
      → ((a : String) → Sets.contains applicable a ≡ names_anchor rs a)
      → stale_exemptions doc policy applicable es ≡ stale_findings rs es
  unfolding stale_exemptions
  stale_exemptions_lem applicable rs [] same = refl
  stale_exemptions_lem applicable rs (e ∷ es) same =
      rw (same e.anchor, stale_exemptions_lem applicable rs es same) refl

  abbrev start : Coverage
  start = record {
    applicable = [];
    findings = [];
    classification = record { applicable = 0; covered = 0; exempt = 0; uncovered = 0 };
  }

  counts :
      (c : Coverage)
      → Adds doc.protocol_relations start c
      → (c.classification.applicable ≡ count applies doc.protocol_relations)
        × (c.classification.covered ≡ count is_covered doc.protocol_relations)
        × (c.classification.exempt ≡ count is_excused doc.protocol_relations)
        × (c.classification.uncovered ≡ count is_uncovered doc.protocol_relations)
        × (c.classification.covered + c.classification.exempt + c.classification.uncovered
            ≡ c.classification.applicable)
        × (c.findings ++ stale_exemptions doc policy c.applicable (values policy.exemptions)
            ≡ uncovered_findings doc.protocol_relations
              ++ stale_findings doc.protocol_relations (values policy.exemptions))
  unfolding Sets.contains
  counts c added =
      let s = added.sum in
      let stale =
        stale_exemptions_lem c.applicable doc.protocol_relations (values policy.exemptions)
          added.anchors in
      (
        added.applicable_count ∙ (omega arith),
        added.covered_count ∙ (omega arith),
        added.exempt_count ∙ (omega arith),
        added.uncovered_count ∙ (omega arith),
        (omega arith),
        ap₂ ◌++◌ added.found stale,
      )

  -- Every relation of a configured protocol is counted once: as covered where a feature reaches its
  -- anchor, otherwise as exempt where an exemption names the anchor, and otherwise as uncovered. The
  -- findings are those of the uncovered relations, in their order and with the protocol, the
  -- implementor and the anchor of each, and after them those of the exemptions whose anchor no
  -- relation of a configured protocol has.
  pub protocol_coverage_findings_lem :
      let n = (protocol_coverage_findings doc policy).1 in
      (n.applicable ≡ count applies doc.protocol_relations)
      × (n.covered ≡ count is_covered doc.protocol_relations)
      × (n.exempt ≡ count is_excused doc.protocol_relations)
      × (n.uncovered ≡ count is_uncovered doc.protocol_relations)
      × (n.covered + n.exempt + n.uncovered ≡ n.applicable)
      × ((protocol_coverage_findings doc policy).0
          ≡ uncovered_findings doc.protocol_relations
            ++ stale_findings doc.protocol_relations (values policy.exemptions))
  unfolding protocol_coverage_findings
  protocol_coverage_findings_lem =
      counts (visit_relations doc policy start doc.protocol_relations)
        (visit_relations-Adds start doc.protocol_relations)
