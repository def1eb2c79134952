-- ===== src/Demands/Fanout/Coverage.antt =====
-- The pages of an event reach each demand that it concerns, once (analysis_demands.py).
use crash_cap.Base.{
  ℕ, ◌+◌, ◌-◌, ◌<◌, ◌&&◌, String, ◌≡◌, refl, sym, ap, ◌∙◌, Bool, true, not, Option, none, some,
  List, [], ◌∷◌, ◌++◌, map, ltb, length, take, keep_if, if◌then◌else◌, Result, ok, err, inl, inr,
  Bool-cases, zero, suc, All, or_else, ltb→lt, not-ltb, leb, leb→le, arith,
}
use mathlib.Core.List.{append-nil}
use mathlib.Core.Path.{subst}
use crash_cap.Base.Sorting.{str_lt, sorted_set}
use crash_cap.Base.Ascending.{str_lt_trans, Ascending, sorted_set-Ascending}
use crash_cap.Base.Paging.{id_at, sorted_set-keep_if, take_behind, take_all, id_at-some}
use crash_cap.Base.Keys.{text_keys}
use crash_cap.Base.Table
use crash_cap.Base.Table.{row_at-save_self, key-row_at}
use crash_cap.Demand.{AnalysisDemand}
use crash_cap.Demands.Rows.{Tables, DemandError}
use crash_cap.Demands.Fanout.{
  RoleEvent, Feed, FanoutPage, Workspace, EventCursor, cursor_key, cursor_id, cursor_of,
  event_version, save_cursor, paged, fanned_out, for_workspace, fanout_checks,
  fanout_workspace_role_next, role_at, concerns, beyond, affected_ids, next_after,
}

narrowed :
    (p q : AnalysisDemand → Bool) (r : String → Bool) (ds : List AnalysisDemand)
    → ((d : AnalysisDemand) → (p d && r d.occurrence_id) ≡ q d)
    → keep_if r (map (λ d. d.occurrence_id) (keep_if p ds))
      ≡ map (λ d. d.occurrence_id) (keep_if q ds)
narrowed p q r [] h = refl
narrowed p q r (d ∷ ds) h = ground (arith, h d, narrowed p q r ds h)

-- Behind `a` is a narrower condition than behind `b`, if `a` is behind `b`.
beyond_trans :
    (b : Option String) (a i : String) → beyond b a ≡ true → (beyond b i && str_lt a i) ≡ str_lt a i
beyond_trans none a i h = refl
beyond_trans (some c) a i h = elim (Bool-cases (str_lt a i)) [
  | inl e ↦ ground (arith, e, str_lt_trans c a i h e)
  | inr e ↦ ground (arith, e)
]

and_assoc : (a b c d : Bool) → (b && c) ≡ d → ((a && b) && c) ≡ (a && d)
and_assoc a b c d h = ground (arith, h)

and_idem : (a b : Bool) → ((a && b) && b) ≡ (a && b)
and_idem a b = ground arith

module _ (workspace : String) (e : RoleEvent) (f : Feed) (db : Tables) where
  affected_behind :
      (b : Option String) (a : String)
      → beyond b a ≡ true
      → keep_if (str_lt a) (affected_ids workspace e b f db)
        ≡ affected_ids workspace e (some a) f db
  unfolding affected_ids
  affected_behind b a h =
      sym (sorted_set-keep_if (str_lt a) _)
      ∙ ap sorted_set (
          narrowed _ _ (str_lt a) db.demands (λ d.
            and_assoc (concerns workspace e f d) (beyond b d.occurrence_id)
              (str_lt a d.occurrence_id) (str_lt a d.occurrence_id)
              (beyond_trans b a d.occurrence_id h)))

  affected_beyond :
      (b : Option String)
      → keep_if (beyond b) (affected_ids workspace e b f db) ≡ affected_ids workspace e b f db
  unfolding affected_ids
  affected_beyond b =
      sym (sorted_set-keep_if (beyond b) _)
      ∙ ap sorted_set (
          narrowed _ _ (beyond b) db.demands
            (λ d. and_idem (concerns workspace e f d) (beyond b d.occurrence_id)))

  affected_ascends : (b : Option String) → Ascending (affected_ids workspace e b f db)
  unfolding affected_ids
  affected_ascends b = sorted_set-Ascending _

kept_holds : (p : String → Bool) (xs : List String) → All (λ x. p x ≡ true) (keep_if p xs)
kept_holds p [] = tt
kept_holds p (x ∷ xs) = elim (Bool-cases (p x)) [
  | inl e ↦ rw (e, All) (e, kept_holds p xs)
  | inr e ↦ rw (e, All) (kept_holds p xs)
]

id_at-All :
    (p : String → Bool) (xs : List String) (i : ℕ) (a : String)
    → All (λ x. p x ≡ true) xs
    → id_at i xs ≡ some a
    → p a ≡ true
id_at-All p [] i a h e = absurd (ground (arith, e))
id_at-All p (x ∷ xs) zero a h e = ground (arith, h.0, e)
id_at-All p (x ∷ xs) (suc i) a h e = id_at-All p xs i a h.1 e

next_after_more :
    (i : ℕ) (ids : List String) (a : String)
    → ltb (suc i) (length ids) ≡ true
    → id_at i ids ≡ some a
    → next_after (suc i) ids ≡ some a
unfolding next_after
next_after_more i ids a m h =
    let previous : suc i - 1 ≡ i = omega arith in rw m (ap (λ j. id_at j ids) previous ∙ h)

module _ (workspace : String) (e : RoleEvent) (f : Feed) (db : Tables) (b : Option String) where
  -- What comes behind the last of a page is what the cursor leaves.
  behind_page :
      (i : ℕ) (a : String)
      → id_at i (affected_ids workspace e b f db) ≡ some a
      → affected_ids workspace e b f db
        ≡ take (suc i) (affected_ids workspace e b f db) ++ affected_ids workspace e (some a) f db
  behind_page i a h =
      let ids = affected_ids workspace e b f db in
      let kept = affected_beyond workspace e f db b in
      let past : beyond b a ≡ true =
        id_at-All (beyond b) (keep_if (beyond b) ids) i a (kept_holds (beyond b) ids)
          (ap (id_at i) kept ∙ h) in
      take_behind i ids a (affected_ascends workspace e f db b) h
      ∙ ap (λ rest. take (suc i) ids ++ rest) (affected_behind workspace e f db b a past)

  -- A page, and what is left for the next ones.
  page_and_rest :
      (limit : ℕ)
      → 0 < limit
      → affected_ids workspace e b f db
        ≡ take limit (affected_ids workspace e b f db)
          ++ (if not (ltb limit (length (affected_ids workspace e b f db)))
              then []
              else affected_ids workspace e
                  (next_after limit (affected_ids workspace e b f db))
                  f
                  db)
  page_and_rest zero h = absurd (omega (arith, h))
  page_and_rest (suc i) h =
      let ids = affected_ids workspace e b f db in
      elim (Bool-cases (ltb (suc i) (length ids))) [
        | inl m ↦
            let last = id_at-some i ids (omega (arith, ltb→lt (suc i) (length ids) m)) in
            let next = next_after_more i ids last.0 m last.1 in
            rw (m, next) (behind_page i last.0 last.1)
        | inr m ↦ rw m (
            sym (
              append-nil (take (suc i) ids)
              ∙ take_all (suc i) ids (not-ltb (suc i) (length ids) m)))
      ]

found_cursor_id :
    (workspace : String) (f : Feed) (o : Option EventCursor)
    → Table.row_at cursor_key (cursor_id workspace) f.cursors ≡ o
    → (or_else o (record { id = cursor_id workspace; revision = 0; after_occurrence_id = none })).id
      ≡ cursor_id workspace
found_cursor_id workspace f none h = refl
found_cursor_id workspace f (some c) h = key-row_at cursor_key (cursor_id workspace) f.cursors h

cursor_of_id : (workspace : String) (f : Feed) → (cursor_of workspace f).id ≡ cursor_id workspace
unfolding cursor_of
cursor_of_id workspace f = found_cursor_id workspace f _ refl

cursor_of-save_cursor :
    (workspace : String) (f : Feed) (c : EventCursor)
    → c.id ≡ cursor_id workspace
    → cursor_of workspace (save_cursor c f) ≡ c
unfolding cursor_of
cursor_of-save_cursor workspace f c h =
    ap
      (λ o.
        or_else o (record { id = cursor_id workspace; revision = 0; after_occurrence_id = none }))
      (row_at-save_self cursor_key c (cursor_id workspace) f.cursors h)

-- What a page and the cursors that it leaves cover.
pub Covers :
    (workspace : String) (f : Feed) (db : Tables) (e : RoleEvent) → FanoutPage → Feed → Type 0
Covers workspace f db e p f' =
    (affected_ids workspace e (cursor_of workspace f).after_occurrence_id f db
      ≡ p.affected
        ++ (if p.event_complete
            then []
            else affected_ids workspace e (cursor_of workspace f').after_occurrence_id f db))
    × (event_version (cursor_of workspace f')
        ≡ (if p.event_complete then e.version + 1 else e.version))

next_version :
    (limit : ℕ) (ids : List String) (id : String) (version : ℕ)
    → 0 < limit
    → event_version
        (record { id = id; revision = version; after_occurrence_id = next_after limit ids })
      ≡ (if not (ltb limit (length ids)) then version + 1 else version)
unfolding next_after
next_version zero ids id version h = absurd (omega (arith, h))
next_version (suc i) ids id version h = elim (Bool-cases (ltb (suc i) (length ids))) [
  | inl m ↦
      let last = id_at-some i ids (omega (arith, ltb→lt (suc i) (length ids) m)) in
      let previous : suc i - 1 ≡ i = omega arith in
      rw (m, ap (λ j. id_at j ids) previous ∙ last.1) refl
  | inr m ↦ rw m refl
]

page_or : FanoutPage → Result DemandError FanoutPage → FanoutPage
page_or p (ok q) = q
page_or p (err e) = p

paged-Covers :
    (workspace : String) (limit : ℕ) (w : Workspace) (e : RoleEvent) (f : Feed) (db : Tables)
    (r : Result DemandError Tables) (p : FanoutPage)
    → 0 < limit
    → let c = cursor_of workspace f in
      let out = paged limit w c e (affected_ids workspace e c.after_occurrence_id f db) r f db in
      out.0 ≡ ok p → Covers workspace f db e p out.1.0
unfolding paged Covers page_or
paged-Covers workspace limit w e f db (err x) p h k = absurd (ground (arith, k))
paged-Covers workspace limit w e f db (ok db') p h k =
    let c = cursor_of workspace f in
    let ids = affected_ids workspace e c.after_occurrence_id f db in
    let c' : EventCursor = record c {
      revision = e.version;
      after_occurrence_id = next_after limit ids;
    } in
    let saved = cursor_of-save_cursor workspace f c' (cursor_of_id workspace f) in
    subst (λ q. Covers workspace f db e q (save_cursor c' f)) (ap (page_or p) k)
      (
        page_and_rest workspace e f db c.after_occurrence_id limit h
            ∙ ap
                (λ d.
                  take limit ids
                  ++ (if not (ltb limit (length ids))
                      then []
                      else affected_ids workspace e d.after_occurrence_id f db))
                (sym saved),
        ap event_version saved ∙ next_version limit ids c.id e.version h,
      )

checked_limit :
    (workspace : String) (limit : ℕ) (f : Feed) (w : Workspace)
    → fanout_checks workspace limit f ≡ ok w
    → 0 < limit
unfolding fanout_checks
checked_limit workspace limit f w h =
    let least : leb 1 limit ≡ true = ground (arith, h) in omega (arith, leb→le 1 limit least)

for_workspace-Covers :
    (workspace : String) (now limit : ℕ) (x : Result DemandError Workspace) (e : RoleEvent)
    (f : Feed) (db : Tables) (p : FanoutPage)
    → fanout_checks workspace limit f ≡ x
    → role_at workspace (event_version (cursor_of workspace f)) f.roles ≡ some e
    → (for_workspace now workspace limit x f db).0 ≡ ok p
    → Covers workspace f db e p (for_workspace now workspace limit x f db).1.0
unfolding for_workspace fanned_out
for_workspace-Covers workspace now limit (err y) e f db p c r h = absurd (ground (arith, h))
for_workspace-Covers workspace now limit (ok w) e f db p c r h =
    let at : EventCursor = cursor_of workspace f in
    subst
      (λ o.
        (fanned_out now workspace limit w at o f db).0 ≡ ok p
        → Covers workspace f db e p (fanned_out now workspace limit w at o f db).1.0)
      (sym r)
      (λ k. paged-Covers workspace limit w e f db _ p (checked_limit workspace limit f w c) k) h

-- Each call that succeeds on an event reaches a page of the demands that the event concerns, in the order of
-- their ids, and the cursor that it leaves stands for exactly the rest, of the same event; when it says that the
-- event is complete nothing is left, and the cursor waits for the next event.
pub fanout_workspace_role_next-Covers :
    (workspace : String) (now limit : ℕ) (e : RoleEvent) (f : Feed) (db : Tables) (p : FanoutPage)
    → role_at workspace (event_version (cursor_of workspace f)) f.roles ≡ some e
    → (fanout_workspace_role_next now workspace limit f db).0 ≡ ok p
    → Covers workspace f db e p (fanout_workspace_role_next now workspace limit f db).1.0
unfolding fanout_workspace_role_next
fanout_workspace_role_next-Covers workspace now limit e f db p r h =
    for_workspace-Covers workspace now limit _ e f db p refl r h
