-- ===== src/Reconciler/Steps/Laws.antt =====
-- What every sequence of steps keeps: agents and tasks.
use mathlib.Core.Option
use mathlib.Core.Path.{subst}
use clankwork.Base.{
  ◌≢◌, ◌∙◌, sym, ◌≡◌, ◌⊎◌, inl, inr, refl, String, false, some, List, [], ◌∷◌, ◌==◌, ==_iff,
  ==_refl, arith, Bool-cases, if◌then◌else◌,
}
use clankwork.Tasks.{Task, TaskStatus, is_running, get_task}
use clankwork.Tasks.Laws.{get_task-id}
use clankwork.Reconciler.{Agent, World, update_agent, get_agent}
use clankwork.Reconciler.Actions.Laws.{task_runs, Ended, StopsOnly}
use clankwork.Reconciler.Steps.{
  AgentBecomes, TaskBecomes, IsStopped, IsBlocked, killed_row, done_row, forgotten_row, Finds,
  AgentStep, quiet, failed_task, blocked_task, closed_agent, forgot_process, AgentSteps, stay, via,
}

abbrev pub Stopped : World → String → Type 0
Stopped w id = task_runs (get_task w.tasks id) ≡ false

-- What became of one agent's row: its task is the same, and a new status means that the task no
-- longer runs.
abbrev pub Settled : World → Agent → Agent → Type 0
Settled w a a' = (a'.task_id ≡ a.task_id) × ((a'.status ≡ a.status) ⊎ Stopped w a.task_id)

-- No task was set to run, no agent was lost, and none changed its status while its task runs.
abbrev pub Steady : World → World → Type 0
Steady w w' =
    ((id : String) → Stopped w id → Stopped w' id)
    × ((id : String) (a : Agent)
        → get_agent w.agents id ≡ some a
        → (a' : Agent) × (get_agent w'.agents id ≡ some a') × Settled w' a a')

pub Steady-refl : (w : World) → Steady w w
Steady-refl w = (λ id h. h, λ id a h. (a, h, (refl, inl refl)))

Settled-later :
    (w w' : World) (a a' a'' : Agent)
    → ((id : String) → Stopped w id → Stopped w' id)
    → Settled w a a'
    → Settled w' a' a''
    → Settled w' a a''
Settled-later w w' a a' a'' mono (p, inl e) (q, inl f) = (q ∙ p, inl (f ∙ e))
Settled-later w w' a a' a'' mono (p, inr e) (q, _) = (q ∙ p, inr (mono a.task_id e))
Settled-later w w' a a' a'' mono (p, _) (q, inr f) = (q ∙ p, inr (rw p at f))

pub Steady-trans : (w v u : World) → Steady w v → Steady v u → Steady w u
Steady-trans w v u (m, k) (n, l) = (
  λ id h. n id (m id h),
  λ id a h.
      let (b, p, s) = k id a h in let (c, q, r) = l id b p in (c, q, Settled-later v u a b c n s r),
)

pub get_agent-update_agent :
    (id : String) (f : Agent → Agent) (l : List Agent) (j : String)
    → ((a : Agent) → (f a).id ≡ a.id)
    → get_agent (update_agent id f l) j
      ≡ (if id == j then Option.map f (get_agent l j) else get_agent l j)
unfolding update_agent
get_agent-update_agent id f [] j keep = ground arith
get_agent-update_agent id f (a ∷ rest) j keep = ground (
  arith,
  get_agent-update_agent id f rest j keep,
  keep a,
  ==_iff a.id id,
  ==_iff a.id j,
  ==_iff id j,
)

-- The agent has a row, of the same task.
abbrev pub Knows : Agent → World → Type 0
Knows a w = (b : Agent) × (get_agent w.agents a.id ≡ some b) × (b.task_id ≡ a.task_id)

pub Knows-later : (a : Agent) (w v : World) → Knows a w → Steady w v → Knows a v
Knows-later a w v (b, p, e) (m, k) = let (c, q, s) = k a.id b p in (c, q, s.0 ∙ e)

StopsOnly-Stopped :
    (id : String) (w w' : World)
    → StopsOnly id w.tasks w'.tasks
    → (j : String) → Stopped w j
    → Stopped w' j
StopsOnly-Stopped id w w' h j s = ground (arith, h j)

StopsOnly-self : (id : String) (w w' : World) → StopsOnly id w.tasks w'.tasks → Stopped w' id
StopsOnly-self id w w' h = ground (arith, h id, ==_refl id)

-- An agent whose row changes while its task stops, or keeps its status.
AgentBecomes-Settles :
    (a : Agent) (f : Agent → Agent) (w w' : World)
    → Knows a w
    → AgentBecomes a f w w'
    → ((b : Agent) → (f b).task_id ≡ b.task_id)
    → ((b : Agent) → (f b).status ≡ b.status) ⊎ Stopped w' a.task_id
    → (id : String) (b : Agent) → get_agent w.agents id ≡ some b
    → (b' : Agent) × (get_agent w'.agents id ≡ some b') × Settled w' b b'
AgentBecomes-Settles a f w w' knows (others, self) same stops id b h =
    elim (Bool-cases (a.id == id)) [
      | inl p ↦
          let q : a.id ≡ id = (==_iff a.id id).0 p in
          let h' : get_agent w.agents a.id ≡ some b =
            subst (λ x. get_agent w.agents x ≡ some b) (sym q) h in
          let (c, p', r) = knows in
          let task : b.task_id ≡ a.task_id = ground (arith, h', p', r) in
          (
            f b,
            subst (λ x. get_agent w'.agents x ≡ some (f b)) q (self b h'),
            (same b, elim stops [ inl kept ↦ inl (kept b) | inr over ↦ inr (rw task over) ]),
          )
      | inr p ↦
          let ne : a.id ≢ id = λ q. cc ((==_iff a.id id).1 q, p) in
          (b, others id ne ∙ h, (refl, inl refl))
    ]

TaskBecomes-Stopped :
    (a : Agent) (P : TaskStatus → Type 0) (w w' : World)
    → TaskBecomes a P w w'
    → ((s : TaskStatus) → P s → is_running s ≡ false)
    → ((id : String) → Stopped w id → Stopped w' id) × Stopped w' a.task_id
TaskBecomes-Stopped a P w w' (others, (r, found, p)) stops =
    let over : Stopped w' a.task_id = rw found (stops r.status p) in
    (
      λ id h. elim (Bool-cases (a.task_id == id)) [
        | inl e ↦ subst (λ x. Stopped w' x) ((==_iff a.task_id id).0 e) over
        | inr e ↦ rw (others id (λ q. cc ((==_iff a.task_id id).1 q, e))) h
      ],
      over,
    )

pub found_by_id : (a : Agent) (t : Task) (w : World) → Finds a t w → get_task w.tasks t.id ≡ some t
found_by_id a t w found =
    subst (λ x. get_task w.tasks x ≡ some t) (sym (get_task-id w.tasks a.task_id t found)) found

pub Ended-Stopped :
    (a : Agent) (t : Task) (w w' : World) → Finds a t w → Ended a t w w' → Stopped w' a.task_id
Ended-Stopped a t w w' found (e, stops) =
    subst (λ x. Stopped w' x) (get_task-id w.tasks a.task_id t found)
      (StopsOnly-self t.id w w' stops)

killed-Steady :
    (a : Agent) (P : TaskStatus → Type 0) (w v : World)
    → Knows a w
    → AgentBecomes a killed_row w v
    → TaskBecomes a P w v
    → ((s : TaskStatus) → P s → is_running s ≡ false)
    → Steady w v
killed-Steady a P w v knows killed stopped stops =
    let (mono, over) = TaskBecomes-Stopped a P w v stopped stops in
    (mono, AgentBecomes-Settles a killed_row w v knows killed (λ b. refl) (inr over))

pub AgentStep-Steady : (a : Agent) (w v : World) → Knows a w → AgentStep a w v → Steady w v
AgentStep-Steady a w v knows (quiet ea et ee) =
    (λ id h. rw et h, λ id b h. (b, rw ea h, (refl, inl refl)))
AgentStep-Steady a w v knows (failed_task t found r killed stopped ee) =
    killed-Steady a IsStopped w v knows killed stopped (λ s h. h)
AgentStep-Steady a w v knows (blocked_task t sig found r killed stopped asks) =
    killed-Steady a IsBlocked w v knows killed stopped (λ s h. rw h refl)
AgentStep-Steady a w v knows (closed_agent t found r closed et ee) = (
  λ id h. rw et h,
  AgentBecomes-Settles a done_row w v knows closed (λ b. refl) (inr (rw (et, found) r)),
)
AgentStep-Steady a w v knows (forgot_process r forgotten et ee) = (
  λ id h. rw et h,
  AgentBecomes-Settles a forgotten_row w v knows forgotten (λ b. refl) (inl (λ b. refl)),
)

pub AgentSteps-Steady : (a : Agent) (w v : World) → Knows a w → AgentSteps a w v → Steady w v
AgentSteps-Steady a w v knows stay = Steady-refl w
AgentSteps-Steady a w u knows (via v s rest) =
    let first = AgentStep-Steady a w v knows s in
    Steady-trans w v u first (AgentSteps-Steady a v u (Knows-later a w v knows first) rest)
