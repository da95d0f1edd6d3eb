-- ===== src/Coinblast/Worker/Scan.antt =====
-- The scan of a chunk, and the worker's rounds over the chunks.
use indexer_rs.Base.{
  ◌≡◌, refl, inl, inr, String, Bool, true, false, List, [], ◌∷◌, arith, All, ok, err, string_eq,
  Bool-cases, as_i64,
}
use indexer_rs.Base.Effects.{Result-cases, for_each}
use indexer_rs.Domain.{BlockHeight}
use indexer_rs.Db.Schema.{Db}
use indexer_rs.Db.Session.{execute}
use indexer_rs.Db.Coinblast.{InsertCbToken, insert_token}
use indexer_rs.Sync.Convert.{RpcLog}
use indexer_rs.Sync.Ingest.{logs_in_range}
use indexer_rs.Coinblast.Handlers.{Handled, on_db, apply_curve_created, token_of}
use indexer_rs.Coinblast.Orphan.{probe, adopt, try_adopt}
use indexer_rs.Coinblast.Worker.{
  Abi, ChainView, Worker, Work, on_session, contains, insert_set, emitter_of, has_topic,
  is_curve_event, factory_log, vet, learn_adopted, dispatch, curve_log, retried, run_chunk, or_zero,
  hash_or_empty,
}
use indexer_rs.Coinblast.Worker.Frame.{Keeps, Keeps-refl, insert_token-KeepsBy, execute-Keeps}
use indexer_rs.Coinblast.Worker.Recorded.{
  Told, Recorded, Recorded-Keeps, Follows, Follows-refl, Follows-trans, on_session-Follows,
  contains-insert_set, dispatch-Recorded,
}

learn-Follows :
    (abi : Abi) (a b : Worker) (x : String)
    → Follows abi a b
    → Follows abi a (record b { known_curves = insert_set x b.known_curves })
learn-Follows abi a b x f = record {
  keeps = f.keeps;
  knows = λ e h. contains-insert_set e x b.known_curves (f.knows e h);
}

insert_token-Keeps :
    (abi : Abi) (t : InsertCbToken) (w : Worker)
    → Keeps (Told abi) w.db (on_db (execute (insert_token t)) w.session).1.db
unfolding on_db
insert_token-Keeps abi t w =
    execute-Keeps (Told abi) (insert_token t) w.session (insert_token-KeepsBy (Told abi) t)

apply_curve_created-Keeps :
    (abi : Abi) (l : RpcLog) (w : Worker)
    → Keeps (Told abi) w.db (apply_curve_created abi.events l w.session).1.db
unfolding apply_curve_created
apply_curve_created-Keeps abi l w = elim (Result-cases (token_of abi.events l)) [
  | inl (t, e) ↦ rw e (insert_token-Keeps abi t w)
  | inr (x, e) ↦ rw e (Keeps-refl (Told abi) w.db)
]

factory_log-Follows : (abi : Abi) (l : RpcLog) (w : Worker) → Follows abi w (factory_log abi l w).1
unfolding factory_log
factory_log-Follows abi l w = elim (Bool-cases (has_topic l abi.topics.curve_created)) [
  | inr other ↦ rw other (Follows-refl abi w)
  | inl is ↦
      let step = on_session (apply_curve_created abi.events l) w in
      let f =
        on_session-Follows abi (apply_curve_created abi.events l) w
          (apply_curve_created-Keeps abi l w) in
      rw is (elim (Result-cases step.0) [
        | inl (u, e) ↦ rw e (learn-Follows abi w step.1 (emitter_of abi l) f)
        | inr (x, e) ↦ rw e f
      ])
]

adopt-Keeps :
    (abi : Abi) (r : Handled InsertCbToken) (w : Worker)
    → Keeps (Told abi) w.db (adopt r w.session).1.db
adopt-Keeps abi (err e) w = Keeps-refl (Told abi) w.db
adopt-Keeps abi (ok t) w = elim (Result-cases (on_db (execute (insert_token t)) w.session).0) [
  | inl (u, e) ↦ rw e (insert_token-Keeps abi t w)
  | inr (x, e) ↦ rw e (insert_token-Keeps abi t w)
]

learn_adopted-Follows :
    (abi : Abi) (emitter : String) (r : Handled Bool) (a b : Worker)
    → Follows abi a b
    → Follows abi a (learn_adopted abi emitter r b).1
learn_adopted-Follows abi emitter (ok true) a b f = learn-Follows abi a b emitter f
learn_adopted-Follows abi emitter (ok false) a b f = record { keeps = f.keeps; knows = f.knows }
learn_adopted-Follows abi emitter (err e) a b f = record { keeps = f.keeps; knows = f.knows }

vet-Follows :
    (abi : Abi) (chain : ChainView) (l : RpcLog) (w : Worker) → Follows abi w (vet abi chain l w).1
unfolding vet
vet-Follows abi chain l w = elim (Bool-cases (contains (emitter_of abi l) w.known_curves)) [
  | inl known ↦ rw known (Follows-refl abi w)
  | inr unknown ↦ elim (Bool-cases (contains (emitter_of abi l) w.known_non_curves)) [
    | inl vetted ↦ rw (unknown, vetted) (Follows-refl abi w)
    | inr new ↦
        let hash = hash_or_empty abi l.transaction_hash in
        let block = as_i64 (or_zero l.block_number) in
        let adoption = try_adopt abi.events.hex chain.views l.address block hash in
        rw (unknown, new)
          (learn_adopted-Follows abi (emitter_of abi l) (on_session adoption w).0 w
            (on_session adoption w).1
            (on_session-Follows abi adoption w (
              unfold try_adopt in
              adopt-Keeps abi (probe abi.events.hex chain.views l.address block hash) w)))
  ]
]

vet-known :
    (abi : Abi) (chain : ChainView) (l : RpcLog) (w : Worker)
    → contains (emitter_of abi l) w.known_curves ≡ true
    → vet abi chain l w ≡ (ok true, w)
unfolding vet
vet-known abi chain l w known = rw known refl

curve_log-Follows :
    (abi : Abi) (chain : ChainView) (l : RpcLog) (w : Worker)
    → Follows abi w (curve_log abi chain l w).1
unfolding curve_log
curve_log-Follows abi chain l w = elim (Bool-cases (is_curve_event abi l)) [
  | inr other ↦ rw other (Follows-refl abi w)
  | inl event ↦
      let step = vet abi chain l w in
      let f = vet-Follows abi chain l w in
      rw event (elim (Result-cases step.0) [
        | inr (x, e) ↦ rw e f
        | inl (true, e) ↦ rw e (Follows-trans abi w step.1 _ f (dispatch-Recorded abi l step.1).0)
        | inl (false, e) ↦ rw e f
      ])
]

-- A log of a known curve is recorded, whichever event of the three it is.
curve_log-Recorded :
    (abi : Abi) (chain : ChainView) (l : RpcLog) (w : Worker)
    → contains (emitter_of abi l) w.known_curves ≡ true
    → is_curve_event abi l ≡ true
    → (curve_log abi chain l w).0 ≡ ok tt
    → Recorded abi (curve_log abi chain l w).1.db l
unfolding curve_log
curve_log-Recorded abi chain l w known event fin =
    let same = vet-known abi chain l w known in
    let fin' : (dispatch abi l w).0 ≡ ok tt = rw (event, same) at fin in
    rw (event, same) ((dispatch-Recorded abi l w).1 event fin')

for_each-Follows :
    (abi : Abi) (f : RpcLog → Work (Unit {0})) (ls : List RpcLog) (w : Worker)
    → ((l : RpcLog) (v : Worker) → Follows abi v (f l v).1)
    → Follows abi w (for_each f ls w).1
unfolding for_each
for_each-Follows abi f [] w step = Follows-refl abi w
for_each-Follows abi f (l ∷ ls) w step = elim (Result-cases (f l w).0) [
  | inl (u, e) ↦
      rw e (Follows-trans abi w (f l w).1 _ (step l w) (for_each-Follows abi f ls (f l w).1 step))
  | inr (x, e) ↦ rw e (step l w)
]

-- A log of one of the known curves.
abbrev pub Tracked : Abi → List String → RpcLog → Type 0
Tracked abi known l = (contains (emitter_of abi l) known ≡ true) × (is_curve_event abi l ≡ true)

all_logs-Recorded :
    (abi : Abi) (chain : ChainView) (known : List String) (ls : List RpcLog) (w : Worker) (db : Db)
    → ((e : String) → contains e known ≡ true → contains e w.known_curves ≡ true)
    → (for_each (curve_log abi chain) ls w).0 ≡ ok tt
    → (for_each (curve_log abi chain) ls w).1.db ≡ db
    → All (λ l. Tracked abi known l → Recorded abi db l) ls
unfolding for_each
all_logs-Recorded abi chain known [] w db knows fin ends = tt
all_logs-Recorded abi chain known (l ∷ ls) w db knows fin ends =
    elim (Result-cases (curve_log abi chain l w).0) [
      | inr (x, e) ↦ absurd (ground (arith, e))
      | inl (u, e) ↦
          let w' = (curve_log abi chain l w).1 in
          let later =
            for_each-Follows abi (curve_log abi chain) ls w' (curve_log-Follows abi chain) in
          let fin' : (for_each (curve_log abi chain) ls w').0 ≡ ok tt = rw e at fin in
          let ends' : (for_each (curve_log abi chain) ls w').1.db ≡ db = rw e at ends in
          (
            λ (known_here, event).
                Recorded-Keeps abi w'.db db l (rw ends' at later.keeps)
                  (curve_log-Recorded abi chain l w (knows (emitter_of abi l) known_here) event e),
            all_logs-Recorded abi chain known ls w' db
                (λ x h. (curve_log-Follows abi chain l w).knows x (knows x h)) fin' ends',
          )
    ]

-- A chunk, whatever fails in it, loses no trade and leaves the cursor; and one that succeeds has recorded
-- every log of a known curve that the chain answered.
pub run_chunk-Recorded :
    (abi : Abi) (chain : ChainView) (from to : BlockHeight) (w : Worker)
    → let r = run_chunk abi chain from to w in
      Follows abi w r.1
      × (r.0 ≡ ok tt
          → (ls : List RpcLog) × (retried (logs_in_range chain.all_logs from to) ≡ ok ls)
            × All (λ l. Tracked abi w.known_curves l → Recorded abi r.1.db l) ls)
unfolding run_chunk
run_chunk-Recorded abi chain from to w =
    elim (Result-cases (retried (logs_in_range chain.factory_logs from to))) [
      | inr (x, e) ↦ rw e (Follows-refl abi w, λ fin. absurd (ground arith))
      | inl (fs, e) ↦
          let w1 = (for_each (factory_log abi) fs w).1 in
          let f1 = for_each-Follows abi (factory_log abi) fs w (factory_log-Follows abi) in
          rw e (elim (Result-cases (for_each (factory_log abi) fs w).0) [
            | inr (x, e1) ↦ rw e1 (f1, λ fin. absurd (ground arith))
            | inl (u, e1) ↦
                rw e1 (elim (Result-cases (retried (logs_in_range chain.all_logs from to))) [
                  | inr (x, e2) ↦ rw e2 (f1, λ fin. absurd (ground arith))
                  | inl (ls, e2) ↦
                      let f2 =
                        for_each-Follows abi (curve_log abi chain) ls w1
                          (curve_log-Follows abi chain) in
                      rw e2 (
                        Follows-trans abi w w1 _ f1 f2,
                        λ fin. (
                          ls,
                          refl,
                          all_logs-Recorded abi chain w.known_curves ls w1 _ f1.knows fin refl,
                        ),
                      )
                ])
          ])
    ]
