-- ===== src/System.antt =====
-- What the program asks of the operating system and of Go's runtime, as events. An `Env` answers
-- each request by a function of all the events so far, so it stands for any behaviour; a program
-- part is a function from the trace, newest event first, to its result and the longer trace.
pub mod Emits
use workloadguard.Float.{Float64}
use workloadguard.Base.{ℕ, suc, ℤ, Bool, String, List, [], ◌∷◌, Option, Outcome, if◌then◌else◌}

pub data Signal : Type 0 where
  sigterm sigkill probe : Signal  -- `probe` is signal 0

-- The log lines that an action is for. (Other log lines are left out.)
pub data LogLine : Type 0 where
  policy_action : String → String → List ℤ → Float64 → Float64 → Float64 → LogLine
  parent_process : String → String → ℕ → LogLine

pub data Event : Type 0 where
  find : ℤ → Event
  signal : ℤ → Signal → Event
  wait : ℤ → Event
  command : List String → Event
  make_dir : String → Event
  write_file : String → String → Event
  read_clock : Event
  log : LogLine → Event

abbrev pub Trace : Type 0
Trace = List Event

-- The result of `proc.Signal`: nil, `os.ErrProcessDone` or `ESRCH`, or another error.
pub data SendResult : Type 0 where
  sent gone : SendResult
  refused : String → SendResult

pub record Env : Type 0 where
  pub find_result : Trace → ℤ → Option String  -- the error of `os.FindProcess`
  pub send_result : Trace → ℤ → Signal → SendResult
  pub wait_result : Trace → ℤ → Option String  -- `ctx.Err()`, if the context ends before the time
  pub command_result : Trace → List String → Outcome String
  pub make_dir_result : Trace → String → Option String
  pub write_result : Trace → String → String → Option String
  pub clock : Trace → ℤ  -- `time.Now()`, in nanoseconds
  pub stamp : ℤ → String  -- `Format("2006-01-02T15-04-05")`
  pub join_path : String → String → String  -- `filepath.Join`

abbrev pub M {ℓ} : Type ℓ → Type ℓ
M A = Trace → A × Trace

infixl 5 ◌>>=◌ ◌>>◌
abbrev pub ◌>>=◌ {ℓ κ} : {A : Type ℓ} {B : Type κ} → M A → (A → M B) → M B
◌>>=◌ m f t = let r = m t in f r.0 r.1

abbrev pub ◌>>◌ {ℓ κ} : {A : Type ℓ} {B : Type κ} → M A → M B → M B
m >> k = m >>= λ _. k

abbrev pub pure {ℓ} : {A : Type ℓ} → A → M A
pure a t = (a, t)

abbrev pub ask {ℓ} : {A : Type ℓ} → Event → (Trace → A) → M A
ask e answer t = (answer t, e ∷ t)

module _ (env : Env) where
  unfoldable pub find_process : ℤ → M (Option String)
  find_process pid = ask (find pid) (λ t. env.find_result t pid)

  unfoldable pub send : ℤ → Signal → M SendResult
  send pid s = ask (signal pid s) (λ t. env.send_result t pid s)

  unfoldable pub wait_for : ℤ → M (Option String)
  wait_for d = ask (wait d) (λ t. env.wait_result t d)

  unfoldable pub run_command : List String → M (Outcome String)
  run_command args = ask (command args) (λ t. env.command_result t args)

  unfoldable pub mkdir_all : String → M (Option String)
  mkdir_all dir = ask (make_dir dir) (λ t. env.make_dir_result t dir)

  unfoldable pub write : String → String → M (Option String)
  write file text = ask (write_file file text) (λ t. env.write_result t file text)

  unfoldable pub now : M ℤ
  now = ask read_clock env.clock

unfoldable pub log_line : LogLine → M (Unit {0})
log_line l t = (tt, log l ∷ t)

-- `for _, x := range xs { body }`, for its effects
unfoldable pub for_each {ℓ} : {A : Type ℓ} → (A → M (Unit {0})) → List A → M (Unit {0})
for_each body [] t = (tt, t)
for_each body (x ∷ xs) t = for_each body xs (body x t).1

-- A loop that counts the rounds whose body succeeds.
unfoldable pub count_each {ℓ} : {A : Type ℓ} → (A → M Bool) → List A → M ℕ
count_each body [] = pure 0
count_each body (x ∷ xs) = do
  done ← body x
  n ← count_each body xs
  pure (if done then suc n else n)
