-- ===== src/Sync/Backfill/Walk.antt =====
-- The rounds of the walk: each keeps the account of the heights, whatever fails or is cancelled.
use indexer_rs.Base.{
  ◌≡◌, refl, ap, ◌∙◌, ◌⊎◌, inl, inr, ℤ, pos, ◌<ℤ◌, Bool, true, false, Option, none, some, List, [],
  ◌∷◌, ◌++◌, arith, All-append, ok, err, Result, length, leb, Bool-cases,
}
use mathlib.Core.Path.{subst}
use indexer_rs.Base.Effects.{Result-cases, ◌>>=◌, ◌>>◌, pure, lift}
use indexer_rs.Domain.{BlockHeight}
use indexer_rs.Db.Schema.{Db}
use indexer_rs.Db.Growth.{write_cursor-GrowsBy}
use indexer_rs.Db.Meta.{write_cursor_row}
use indexer_rs.Db.Runs.{Runs-execute, execute-failed}
use indexer_rs.Db.Session.{execute}
use indexer_rs.Sync.World.{World, SyncError, db_error, db_result, sql}
use indexer_rs.Sync.Cursor.{write_cursor, greatest_of, stored_cursor-write_cursor}
use indexer_rs.Sync.BlockWriter.{BlockBundle}
use indexer_rs.Sync.BlockWriter.Kept.{write_cursor-ExtendsBy}
use indexer_rs.Sync.Ingest.{fetch_one}
use indexer_rs.Sync.Ingest.Fetch.{AnswersAsked, fetch_one-height}
use indexer_rs.Sync.Backfill.{Run, flush, flush_full, take_answer, walk}
use indexer_rs.Sync.Backfill.Range.{Ascending, heights, heights-snoc}
use indexer_rs.Sync.Backfill.Flush.{
  Answered, Fetched, AtMost, Stands, Progress, no_progress, Progress-join, Ends, flush-Ends,
}

-- One statement outside a transaction: done, or nothing changed.
pub execute-outcome :
    (h : BlockHeight) (w : World)
    → let r = sql (write_cursor h (pos 0)) w in
      ((r.0 ≡ ok tt) × (write_cursor_row h (pos 0) w.db ≡ ok r.1.db))
      ⊎ ((e : SyncError) × (r.0 ≡ err e) × (r.1.db ≡ w.db))
unfolding sql write_cursor
execute-outcome h w =
    let f = write_cursor_row h (pos 0) in
    elim (Result-cases (execute f w.session).0) [
      | inl (u, e) ↦ inl (ap db_result e, (Runs-execute f).sound w.session e)
      | inr (x, e) ↦ inr (db_error x, ap db_result e, execute-failed f w.session x e)
    ]

pub gap-Ends :
    (run : Run) (h : BlockHeight) (w : World) (lo : ℤ) (hs : List BlockHeight)
    → fetch_one run.api run.backoff h ≡ ok none
    → Stands w.db lo
    → Ascending lo (h ∷ hs)
    → Ends run w (h ∷ hs) (sql (write_cursor h (pos 0)) w) (λ u. hs)
gap-Ends run h w lo hs gap (old, is, most) a = elim (execute-outcome h w) [
  | inl (done, rows) ↦ inl (
    tt,
    done,
    (
      record {
        gone = h ∷ [];
        left = hs;
        split = refl;
        done = (inl gap, tt);
        bound = h;
        stands = (
          _,
          stored_cursor-write_cursor h (pos 0) w.db _ old is rows,
          at_height h lo old a.0 most,
        );
        ahead = a.1;
        grows = write_cursor-GrowsBy h (pos 0) w.db _ rows;
        adds = write_cursor-ExtendsBy (Answered run) h (pos 0) w.db _ rows;
      },
      refl,
    ),
  )
  | inr (e, fails, same) ↦
      inr (e, fails, rw same (no_progress run w.db lo (h ∷ hs) (old, is, most) a))
]
  where
    at_height :
        (h lo : ℤ) (old : Option ℤ) → lo <ℤ h → AtMost old lo → AtMost (some (greatest_of h old)) h
    at_height h lo none lt m = omega arith
    at_height h lo (some c) lt m = ground arith

Fetched-snoc :
    (run : Run) (buf : List BlockBundle) (b : BlockBundle)
    → Fetched run buf
    → fetch_one run.api run.backoff b.block.height ≡ ok (some b)
    → Fetched run (buf ++ b ∷ [])
Fetched-snoc run buf b f e = All-append _ buf (b ∷ []) f (e, tt)

-- What a round leaves: the heights of the new buffer and those to come.
abbrev pub Rounds :
    Run
    → World
    → List BlockHeight
    → List BlockHeight
    → Result SyncError (List BlockBundle × BlockHeight) × World
    → Type 0
Rounds run w all hs r =
    ((s : List BlockBundle × BlockHeight) × (r.0 ≡ ok s)
      × Fetched run s.0
      × ((p : Progress run w.db r.1.db all) × (p.left ≡ heights s.0 ++ hs)))
    ⊎ ((e : SyncError) × (r.0 ≡ err e) × Progress run w.db r.1.db all)

flush_full-Rounds :
    (run : Run) (buf : List BlockBundle) (cursor : BlockHeight) (w : World) (lo : ℤ)
    (hs : List BlockHeight)
    → Fetched run buf
    → Stands w.db lo
    → Ascending lo (heights buf ++ hs)
    → Rounds run w (heights buf ++ hs) hs (flush_full run buf cursor w)
unfolding flush_full
flush_full-Rounds run buf cursor w lo hs f s a =
    elim (Bool-cases (leb run.batch_size (length buf))) [
      | inr room ↦ rw room (inl ((buf, cursor), refl, f, (no_progress run w.db lo _ s a, refl)))
      | inl full ↦ rw full (elim (flush-Ends run buf cursor w lo hs f s a) [
        | inl (c, done, p) ↦ rw done (inl (([], c), refl, tt, p))
        | inr (e, fails, p) ↦ rw fails (inr (e, refl, p))
      ])
    ]

take_answer-Rounds :
    (run : Run) (h : BlockHeight) (answer : Option BlockBundle) (buf : List BlockBundle)
    (cursor : BlockHeight) (w : World) (lo : ℤ) (hs : List BlockHeight)
    → AnswersAsked run.api
    → fetch_one run.api run.backoff h ≡ ok answer
    → Fetched run buf
    → Stands w.db lo
    → Ascending lo (heights buf ++ h ∷ hs)
    → Rounds run w (heights buf ++ h ∷ hs) hs (take_answer run h answer buf cursor w)
unfolding take_answer
take_answer-Rounds run h (some b) buf cursor w lo hs asked e f s a =
    let at : b.block.height ≡ h = fetch_one-height run.api run.backoff h b asked e in
    let here : fetch_one run.api run.backoff b.block.height ≡ ok (some b) =
      ap (λ k. fetch_one run.api run.backoff k) at ∙ e in
    let list : heights (buf ++ b ∷ []) ++ hs ≡ heights buf ++ h ∷ hs =
      heights-snoc buf b hs ∙ ap (λ k. heights buf ++ k ∷ hs) at in
    subst (λ all. Rounds run w all hs (flush_full run (buf ++ b ∷ []) cursor w)) list
      (flush_full-Rounds run (buf ++ b ∷ []) cursor w lo hs (Fetched-snoc run buf b f here) s
        (rw list a))
take_answer-Rounds run h none buf cursor w lo hs asked e f s a =
    elim (flush-Ends run buf cursor w lo (h ∷ hs) f s a) [
      | inr (x, fails, p) ↦ rw fails (inr (x, refl, p))
      | inl (c, done, (p, is)) ↦ let w1 = (flush run buf cursor w).1 in rw done (after_gap w1 p is)
    ]
  where
    after_gap :
        (w1 : World) (p : Progress run w.db w1.db (heights buf ++ h ∷ hs))
        → p.left ≡ h ∷ hs
        → Rounds run w
            (heights buf ++ h ∷ hs)
            hs
            ((sql (write_cursor h (pos 0)) >> pure ([], h)) w1)
    after_gap w1 p is = elim (gap-Ends run h w1 p.bound hs e p.stands (rw is at p.ahead)) [
      | inl (u, wrote, (q, left)) ↦
          let (r, same) = Progress-join run w.db w1.db _ _ (h ∷ hs) p is q in
          rw wrote (inl (([], h), refl, tt, (r, same ∙ left)))
      | inr (x, fails, q) ↦
          rw fails (inr (x, refl, (Progress-join run w.db w1.db _ _ (h ∷ hs) p is q).0))
    ]

-- Where the walk ends: all heights are accounted for, and if no round was cancelled and no error came, none is
-- left.
abbrev pub Walked :
    Run → Db → List BlockHeight → List Bool → Result SyncError BlockHeight × World → Type 0
Walked run before all cancels r =
    (p : Progress run before r.1.db all) × ((c : BlockHeight)
      → cancels ≡ []
      → r.0 ≡ ok c
      → p.left ≡ [])

pub append_nil : (xs : List BlockHeight) → xs ++ [] ≡ xs
append_nil [] = refl
append_nil (x ∷ xs) = ap (λ r. x ∷ r) (append_nil xs)

stop-Walked :
    (run : Run) (buf : List BlockBundle) (cursor : BlockHeight) (w : World) (lo : ℤ)
    (hs : List BlockHeight) (cancels : List Bool)
    → Fetched run buf
    → Stands w.db lo
    → Ascending lo (heights buf ++ hs)
    → (cancels ≡ [] → hs ≡ [])
    → Walked run w.db (heights buf ++ hs) cancels (flush run buf cursor w)
stop-Walked run buf cursor w lo hs cancels f s a none_left =
    elim (flush-Ends run buf cursor w lo hs f s a) [
      | inl (c, done, (p, is)) ↦ (p, λ c quiet ok_c. is ∙ none_left quiet)
      | inr (e, fails, p) ↦ (p, λ c quiet ok_c. absurd (ground arith))
    ]

round-Walked :
    (run : Run) (h : BlockHeight) (hs : List BlockHeight) (cancels later : List Bool)
    (buf : List BlockBundle) (cursor : BlockHeight) (w : World) (lo : ℤ)
    → AnswersAsked run.api
    → Fetched run buf
    → Stands w.db lo
    → Ascending lo (heights buf ++ h ∷ hs)
    → (cancels ≡ [] → later ≡ [])
    → ((buf' : List BlockBundle) (cursor' : BlockHeight) (w' : World) (lo' : ℤ)
        → Fetched run buf'
        → Stands w'.db lo'
        → Ascending lo' (heights buf' ++ hs)
        → Walked run w'.db (heights buf' ++ hs) later (walk run hs later buf' cursor' w'))
    → Walked run w.db (heights buf ++ h ∷ hs) cancels (
        (lift (fetch_one run.api run.backoff h) >>= λ answer.
        take_answer run h answer buf cursor >>= λ s. walk run hs later s.0 s.1)
          w)
round-Walked run h hs cancels later buf cursor w lo asked f s a still rest =
    elim (Result-cases (fetch_one run.api run.backoff h)) [
      | inr (x, e) ↦ rw e (no_progress run w.db lo _ s a, λ c quiet fin. absurd (ground arith))
      | inl (answer, e) ↦
          rw e (elim (take_answer-Rounds run h answer buf cursor w lo hs asked e f s a) [
            | inr (x, fails, p) ↦ rw fails (p, λ c quiet fin. absurd (ground arith))
            | inl (t, done, f', (p, is)) ↦
                let w' = (take_answer run h answer buf cursor w).1 in
                let (q, none_left) = rest t.0 t.1 w' p.bound f' p.stands (rw is at p.ahead) in
                let (r, same) = Progress-join run w.db w'.db _ _ (heights t.0 ++ hs) p is q in
                rw done (r, λ c quiet fin. same ∙ none_left c (still quiet) fin)
          ])
    ]

pub walk-Walked :
    (run : Run) (hs : List BlockHeight) (cancels : List Bool) (buf : List BlockBundle)
    (cursor : BlockHeight) (w : World) (lo : ℤ)
    → AnswersAsked run.api
    → Fetched run buf
    → Stands w.db lo
    → Ascending lo (heights buf ++ hs)
    → Walked run w.db (heights buf ++ hs) cancels (walk run hs cancels buf cursor w)
unfolding walk
walk-Walked run [] cancels buf cursor w lo asked f s a =
    stop-Walked run buf cursor w lo [] cancels f s a (λ quiet. refl)
walk-Walked run (h ∷ hs) (true ∷ later) buf cursor w lo asked f s a =
    stop-Walked run buf cursor w lo (h ∷ hs) (true ∷ later) f s a (λ quiet. absurd (ground arith))
walk-Walked run (h ∷ hs) (false ∷ later) buf cursor w lo asked f s a =
    round-Walked run h hs (false ∷ later) later buf cursor w lo asked f s a
      (λ quiet. absurd (ground arith))
      (λ buf' cursor' w' lo' f' s' a'. walk-Walked run hs later buf' cursor' w' lo' asked f' s' a')
walk-Walked run (h ∷ hs) [] buf cursor w lo asked f s a =
    round-Walked run h hs [] [] buf cursor w lo asked f s a (λ quiet. refl)
      (λ buf' cursor' w' lo' f' s' a'. walk-Walked run hs [] buf' cursor' w' lo' asked f' s' a')
