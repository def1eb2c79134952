-- ===== src/Current/Log.antt =====
-- Current is a projection of the decisions (services/current_decisions.py).
use crash_cap.Base.{
  String, ◌≡◌, refl, sym, ap, ◌∙◌, ◌&&◌, Option, some, List, [], ◌∷◌, ◌++◌, if◌then◌else◌, Result,
  ok, err, inl, inr, Bool-cases, arith,
}
use mathlib.Core.List.{append-nil, append_assoc}
use crash_cap.Base.Keys.{◌==◌, text_keys}
use crash_cap.Base.Table
use crash_cap.Base.Table.{row_at-save, key-row_at}
use package.text.Mathlib.TextEquality.{eq_iff}
use crash_cap.Evidence.Decision.{moves}
use crash_cap.Current.{
  CandidateRun, Occurrence, CurrentDecision, Tables, CurrentError, occurrence_key,
  select_current_run, promotable, chosen, recorded, Promotion, comparison, written, promoted_by,
  promote_current_by_evidence,
}

-- What one decision makes of the Current of an occurrence.
abbrev pub step : String → Option String → CurrentDecision → Option String
step o current d =
    if (d.occurrence_id == o && moves d.decision) then some d.candidate_run_id else current

-- The Current of an occurrence that the decisions give, oldest first.
unfoldable pub replay : String → Option String → List CurrentDecision → Option String
replay o current [] = current
replay o current (d ∷ ds) = replay o (step o current d) ds

replay-append :
    (o : String) (current : Option String) (ds es : List CurrentDecision)
    → replay o current (ds ++ es) ≡ replay o (replay o current ds) es
unfolding replay
replay-append o current [] es = refl
replay-append o current (x ∷ xs) es = replay-append o (step o current x) xs es

-- The tables after a sequence of calls.
abbrev pub calls : List Promotion → Tables → Tables
calls [] db = db
calls (p ∷ ps) db = calls ps (promote_current_by_evidence p db).1

-- What calls add to the decisions, and the row of the occurrence that they leave.
pub record Replayed (id : String) (o : Occurrence) (db db' : Tables) : Type 0 where
  pub added : List CurrentDecision
  pub kept : db'.decisions ≡ db.decisions ++ added
  pub after : Occurrence
  pub found : Table.row_at occurrence_key id db'.occurrences ≡ some after
  pub projected : after.current_run_id ≡ replay id o.current_run_id added

unchanged :
    (id : String) (o : Occurrence) (db : Tables)
    → Table.row_at occurrence_key id db.occurrences ≡ some o
    → Replayed id o db db
unfolding replay
unchanged id o db h = record {
  added = [];
  kept = sym (append-nil db.decisions);
  after = o;
  found = h;
  projected = refl;
}

chosen-step :
    (p : Promotion) (o o' : Occurrence) (r : CandidateRun)
    → chosen (comparison p) p.current_evidence o r ≡ ok o'
    → (o'.id ≡ o.id)
      × (o'.current_run_id
          ≡ step o.id o.current_run_id (
              recorded
                (comparison p)
                p.attempt
                p.generation
                p.candidate_evidence
                p.current_evidence
                o
                r))
unfolding chosen select_current_run recorded
chosen-step p o o' r h = (ground (arith, h), ground (arith, h, eq_iff o.id o.id))

same_row :
    (id occurrence : String) (xs : List Occurrence) (o l : Occurrence)
    → Table.row_at occurrence_key id xs ≡ some o
    → Table.row_at occurrence_key occurrence xs ≡ some l
    → occurrence ≡ id
    → l ≡ o
same_row id occurrence xs o l h k e = cc

written-Replayed :
    (id : String) (o : Occurrence) (p : Promotion) (locked : Occurrence) (r : CandidateRun)
    (x : Result CurrentError Occurrence) (db : Tables)
    → Table.row_at occurrence_key id db.occurrences ≡ some o
    → Table.row_at occurrence_key p.occurrence db.occurrences ≡ some locked
    → chosen (comparison p) p.current_evidence locked r ≡ x
    → Replayed id o db (written p r locked x db).1
unfolding written replay recorded
written-Replayed id o p locked r (err e) db h l c = unchanged id o db h
written-Replayed id o p locked r (ok o') db h l c =
    let s = chosen-step p locked o' r c in
    let saved = row_at-save occurrence_key o' id db.occurrences in
    let key = key-row_at occurrence_key p.occurrence db.occurrences l in
    let d =
      recorded (comparison p) p.attempt p.generation p.candidate_evidence p.current_evidence locked
        r in
    elim (Bool-cases (o'.id == id)) [
      | inl e ↦ record {
        added = d ∷ [];
        kept = refl;
        after = o';
        found = saved ∙ rw e refl;
        projected =
            let meant : p.occurrence ≡ id =
              sym key ∙ (sym s.0 ∙ ground (arith, e, eq_iff o'.id id)) in
            let same = same_row id p.occurrence db.occurrences o locked h l meant in
            s.1
            ∙ (ap (λ x. step x.id x.current_run_id d) same
                ∙ ap (λ i. step i o.current_run_id d)
                    (key-row_at occurrence_key id db.occurrences h));
      }
      | inr e ↦ record {
        added = d ∷ [];
        kept = refl;
        after = o;
        found = saved ∙ rw e h;
        projected = rw (ap (λ i. i == id) (sym s.0) ∙ e) refl;
      }
    ]

promote-Replayed :
    (id : String) (o : Occurrence) (p : Promotion) (db : Tables)
    (x : Result CurrentError (Occurrence × CandidateRun))
    → Table.row_at occurrence_key id db.occurrences ≡ some o
    → promotable p.occurrence p.run p.candidate_evidence p.current_evidence db ≡ x
    → Replayed id o db (promoted_by p x db).1
unfolding promoted_by promotable
promote-Replayed id o p db (err e) h q = unchanged id o db h
promote-Replayed id o p db (ok (locked, r)) h q =
    written-Replayed id o p locked r _ db h (ground (arith, q)) refl

followed :
    (id : String) (o : Occurrence) (db mid end : Tables) (first : Replayed id o db mid)
    → Replayed id first.after mid end
    → Replayed id o db end
followed id o db mid end first rest = record {
  added = first.added ++ rest.added;
  kept =
      rest.kept
      ∙ (ap (λ ds. ds ++ rest.added) first.kept ∙ append_assoc db.decisions first.added rest.added);
  after = rest.after;
  found = rest.found;
  projected =
      rest.projected
      ∙ (ap (λ c. replay id c rest.added) first.projected
          ∙ sym (replay-append id o.current_run_id first.added rest.added));
}

-- Whatever calls of promote_current_by_evidence follow each other, on whatever occurrences: decisions are
-- only ever added, at the end, and the Current of an occurrence that is there is the one that the added
-- decisions give, replayed in order from the Current it had.
pub calls-Replayed :
    (id : String) (o : Occurrence) (ps : List Promotion) (db : Tables)
    → Table.row_at occurrence_key id db.occurrences ≡ some o
    → Replayed id o db (calls ps db)
unfolding promote_current_by_evidence
calls-Replayed id o [] db h = unchanged id o db h
calls-Replayed id o (p ∷ ps) db h =
    let first = promote-Replayed id o p db _ h refl in
    followed id o db _ _ first (calls-Replayed id first.after ps _ first.found)
