-- ===== src/Instance/Queries/Answer.antt =====
-- A query is answered once, and only read from.
use temporalio_sdk_python.Common.{
  ℕ, true, List, [], ◌∷◌, ◌++◌, ◌≡◌, refl, ap, ◌∙◌, string_eq, ℕ_eq, option_eq,
}
use temporalio_sdk_python.Common.Result.{Result, ok, err}
use temporalio_sdk_python.Payload.{Payload, Value}
use temporalio_sdk_python.Exceptions.{Exc, Failure, isinstance}
use temporalio_sdk_python.Instance.State.{
  Instance, Action, lift, pure, ◌>>=◌, QueryWorkflow, respond_to_query,
}
use temporalio_sdk_python.Instance.Guards.{
  add_command, as_read_only, IsWritable, add_command-IsWritable,
}
use temporalio_sdk_python.Instance.Handlers.{Converters, process_handler_args}
use temporalio_sdk_python.Instance.Signals.{find_handler}
use temporalio_sdk_python.Instance.Outcome.{single}
use temporalio_sdk_python.Instance.Updates.{HandlerCode}
use temporalio_sdk_python.Instance.Queries.{
  as_value_error, found_query, answer_query, fail_query, caught_query, run_query,
}

-- What the converters and the query's code raise are exceptions in Python's narrow sense.
abbrev pub IsException : {A : Type 0} → Result Exc A → Type 0
IsException (ok a) = Unit {0}
IsException (err e) = isinstance e "Exception" ≡ true

-- Query code only reads, and the failure converter does not raise.
pub record Answers (c : Converters) (code : HandlerCode) : Type 0 where
  pub reads :
      (n : ℕ) (args : List Value) (s : Instance)
      → s.read_only ≡ true
      → (code.handle_query n args s).1 ≡ s
  pub to_failure : (e : Exc) → (f : Failure) × (c.to_failure e ≡ ok f)

lifted :
    {A B : Type 0} (r : Result Exc A) (f : A → Action B) (s : Instance)
    → ((a : A) → (f a s).1 ≡ s)
    → (◌>>=◌ (lift r) f s).1 ≡ s
lifted (ok a) f s k = k a
lifted (err e) f s k = refl

after :
    {A B : Type 0} (m : Action A) (f : A → Action B) (s : Instance)
    → (m s).1 ≡ s
    → ((a : A) → (f a s).1 ≡ s)
    → (◌>>=◌ m f s).1 ≡ s
after {A} {B} m f s e k = go (m s) e
  where
    go : (p : Result Exc A × Instance) → p.1 ≡ s → (◌>>=◌ (λ _. p) f s).1 ≡ s
    go (ok a, t) h = ap (λ u. (f a u).1) h ∙ k a
    go (err x, t) h = h

answer_query-reads :
    (c : Converters) (code : HandlerCode) (job : QueryWorkflow) (s : Instance)
    → Answers c code
    → s.read_only ≡ true
    → (answer_query c code job s).1 ≡ s
unfolding answer_query
answer_query-reads c code job s a r =
    lifted (found_query (find_handler s.queries job.query_type))
      (λ defn. lift (process_handler_args c job.query_type job.arguments defn) >>= λ args.
        code.handle_query defn.fn args >>= λ v.
        lift (c.to_payloads (v ∷ [])) >>= λ ps. lift (single ps))
      s
      (λ defn.
        lifted (process_handler_args c job.query_type job.arguments defn)
          (λ args. code.handle_query defn.fn args >>= λ v.
            lift (c.to_payloads (v ∷ [])) >>= λ ps. lift (single ps))
          s
          (λ args.
            after (code.handle_query defn.fn args)
              (λ v. lift (c.to_payloads (v ∷ [])) >>= λ ps. lift (single ps)) s
              (a.reads defn.fn args s r)
              (λ v. lifted (c.to_payloads (v ∷ [])) (λ ps. lift (single ps)) s (λ ps. refl))))

abbrev answered : QueryWorkflow → Instance → Result Failure Payload → Instance
answered job s r = record s { commands = s.commands ++ respond_to_query job.query_id r ∷ [] }

answered-by :
    (c : Converters) (job : QueryWorkflow) (s : Instance) (p : Result Exc Payload × Instance)
    → IsWritable s
    → ((e : Exc) → (f : Failure) × (c.to_failure e ≡ ok f))
    → IsException p.0
    → record p.1 { read_only = s.read_only } ≡ s
    → (r : Result Failure Payload) × (caught_query c job (
          ◌>>=◌
            (λ _. (p.0, record p.1 { read_only = s.read_only }))
            (λ x. add_command (respond_to_query job.query_id (ok x)))
            s)
        ≡ (ok tt, answered job s r))
unfolding fail_query
answered-by c job s (ok x, t) w h k e = (
  ok x,
  ap (λ u. caught_query c job (add_command (respond_to_query job.query_id (ok x)) u)) e
      ∙ ap (caught_query c job) (add_command-IsWritable (respond_to_query job.query_id (ok x)) s w),
)
answered-by c job s (err x, t) w h k e =
    let (f, g) = h x in
    (
      err f,
      ap (λ u. caught_query c job (err x, u)) e
          ∙ rw (k, g)
              (ap
                (λ (q : Result Exc (Unit {0}) × Instance).
                  as_value_error "Failed converting application error"
                    (◌>>=◌ (λ _. q) (λ _. lift (ok f) >>= λ _. pure tt) s))
                (add_command-IsWritable (respond_to_query job.query_id (err f)) s w)),
    )

-- A query gets one answer and changes nothing else, if its code only reads, the failure converter does not raise, and what
-- is raised while the answer is computed, if anything is, is an instance of `Exception`: the state after the query differs by one command, which answers it.
pub run_query_once :
    (c : Converters) (code : HandlerCode) (job : QueryWorkflow) (s : Instance)
    → Answers c code
    → IsException (answer_query c code job (record s { read_only = true })).0
    → IsWritable s
    → (r : Result Failure Payload) × (run_query c code job s
        ≡ (ok tt, record s { commands = s.commands ++ respond_to_query job.query_id r ∷ [] }))
unfolding run_query as_read_only
run_query_once c code job s a x w =
    answered-by c job s (answer_query c code job (record s { read_only = true })) w a.to_failure x (
      ap (λ (u : Instance). record u { read_only = s.read_only })
        (answer_query-reads c code job (record s { read_only = true }) a refl))
