-- ===== src/Current/Agreement.antt =====
-- What the comparison promotes, the selection accepts (services/current_decisions.py).
use crash_cap.Base.{
  String, ◌≡◌, refl, sym, ap, ◌∙◌, Bool, true, false, ◌&&◌, Option, none, some, [], ◌∷◌,
  if◌then◌else◌, Result, ok, err, inl, inr, Bool-cases, arith,
}
use crash_cap.Base.Keys.{◌==◌, text_keys}
use crash_cap.Base.Table
use package.text.Mathlib.TextEquality.{eq_iff}
use crash_cap.Evidence.{one_of}
use crash_cap.Evidence.Shape.{AnalysisEvidence}
use crash_cap.Evidence.Decision.{moves, same_text}
use crash_cap.Evidence.Comparison.{compare_evidence}
use crash_cap.Evidence.Comparison.Safety.{compare_evidence-Moved, compare_evidence_eligible}
use crash_cap.Current.{
  CandidateRun, Occurrence, Tables, CurrentError, selection_changed, not_eligible, older_run,
  run_key, observed, is_newer, select_current_run, promotable, chosen, Promotion, comparison,
  written, promoted_by, promote_current_by_evidence,
}

-- An error of `select_current_run`.
abbrev pub of_selection : CurrentError → Bool
of_selection selection_changed = true
of_selection not_eligible = true
of_selection older_run = true
of_selection _ = false

-- The checks of the promotion, as far as they matter for the selection.
record Checked (p : Promotion) (db : Tables) (o : Occurrence) (r : CandidateRun) : Type 0 where
  found : Table.row_at run_key p.run db.runs ≡ some r
  belongs : (r.occurrence_id == o.id) ≡ true
  unmoved : same_text o.current_run_id (observed p.current_evidence) ≡ true
  binds : (p.candidate_evidence.run_id == r.id) ≡ true

promotable-Checked :
    (p : Promotion) (db : Tables) (o : Occurrence) (r : CandidateRun)
    → promotable p.occurrence p.run p.candidate_evidence p.current_evidence db ≡ ok (o, r)
    → Checked p db o r
unfolding promotable
promotable-Checked p db o r h = record {
  found = ground (arith, h);
  belongs = ground (arith, h);
  unmoved = ground (arith, h);
  binds = ground (arith, h);
}

newer :
    (c : Option AnalysisEvidence) (n : AnalysisEvidence)
    → moves (compare_evidence c n none).decision ≡ true
    → is_newer (observed c) n.run_id ≡ true
newer none n h = refl
newer (some c) n h = (compare_evidence-Moved c n none h).3

select_current_run_accepts :
    (o : Occurrence) (r : CandidateRun) (expected : Option String)
    → same_text o.current_run_id expected ≡ true
    → (r.occurrence_id == o.id) ≡ true
    → one_of r.status ("COMPLETE" ∷ "PARTIAL" ∷ []) ≡ true
    → is_newer expected r.id ≡ true
    → select_current_run o r expected ≡ ok (record o { current_run_id = some r.id })
unfolding select_current_run
select_current_run_accepts o r expected s b e n = rw (s, b, e, n) refl

and_left : (a b : Bool) → (a && b) ≡ true → a ≡ true
and_left a b h = ground (arith, h)

chosen_accepts :
    (p : Promotion) (db : Tables) (o : Occurrence) (r : CandidateRun)
    → Checked p db o r
    → p.candidate_evidence.status ≡ r.status
    → chosen (comparison p) p.current_evidence o r
      ≡ ok (if moves (comparison p).decision then record o { current_run_id = some r.id } else o)
unfolding chosen
chosen_accepts p db o r k s =
    let bound : p.candidate_evidence.run_id ≡ r.id =
      ground (arith, k.binds, eq_iff p.candidate_evidence.run_id r.id) in
    elim (Bool-cases (moves (comparison p).decision)) [
      | inl m ↦ rw m (
          select_current_run_accepts o r (observed p.current_evidence) k.unmoved k.belongs
            (rw (sym s) (
              and_left _ _
                (compare_evidence_eligible p.current_evidence p.candidate_evidence none m)))
            (ap (is_newer (observed p.current_evidence)) (sym bound)
              ∙ newer p.current_evidence p.candidate_evidence m))
      | inr m ↦ rw m refl
    ]

promotable_refuses :
    (p : Promotion) (db : Tables) (x : CurrentError)
    → promotable p.occurrence p.run p.candidate_evidence p.current_evidence db ≡ err x
    → of_selection x ≡ false
unfolding promotable
promotable_refuses p db x h = ground (arith, h)

written_refuses :
    (p : Promotion) (r : CandidateRun) (o o' : Occurrence) (x : CurrentError)
    (y : Result CurrentError Occurrence) (db : Tables)
    → y ≡ ok o'
    → (written p r o y db).0 ≡ err x
    → of_selection x ≡ false
unfolding written
written_refuses p r o o' x (err e) db c h = absurd (ground (arith, c))
written_refuses p r o o' x (ok o'') db c h = absurd (ground (arith, h))

promoted_by_refuses :
    (p : Promotion) (db : Tables) (r : CandidateRun) (x : CurrentError)
    (y : Result CurrentError (Occurrence × CandidateRun))
    → Table.row_at run_key p.run db.runs ≡ some r
    → p.candidate_evidence.status ≡ r.status
    → promotable p.occurrence p.run p.candidate_evidence p.current_evidence db ≡ y
    → (promoted_by p y db).0 ≡ err x
    → of_selection x ≡ false
unfolding promoted_by
promoted_by_refuses p db r x (err e) f s q h =
    promotable_refuses p db x (q ∙ ap err (ground (arith, h)))
promoted_by_refuses p db r x (ok (o, r')) f s q h =
    let k = promotable-Checked p db o r' q in
    let same : r.status ≡ r'.status = ground (arith, f, k.found) in
    written_refuses p r' o _ x _ db (chosen_accepts p db o r' k (s ∙ same)) h

-- If the evidence of the candidate carries the status of its Run, a call that raises does not raise in
-- `select_current_run`: what the comparison promotes, the selection accepts.
pub promote_current_by_evidence_agrees :
    (p : Promotion) (db : Tables) (r : CandidateRun) (x : CurrentError)
    → Table.row_at run_key p.run db.runs ≡ some r
    → p.candidate_evidence.status ≡ r.status
    → (promote_current_by_evidence p db).0 ≡ err x
    → of_selection x ≡ false
unfolding promote_current_by_evidence
promote_current_by_evidence_agrees p db r x f s h = promoted_by_refuses p db r x _ f s refl h
