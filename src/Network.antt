-- ===== src/Network.antt =====
-- What the asynchronous code of crates/rqx-core/src/{transport,client}.rs does to the world: the
-- clock, sleeping, the network and the connection semaphore. A computation reads the events so far
-- and adds its own; what the world answers is a function of the events (`Env`).
pub mod Counting
pub mod Discipline
use rqx.Base.{ℕ, Text, Bool, List, [], ◌∷◌, Option, none, some}
use rqx.Base.Dict.{Dict}
use rqx.Error.{RqxCoreError}
use rqx.Platform.{Platform, HttpRequest}

pub data Event (P : Platform) : Type 0 where
  looked : Event P
  drew : Event P
  slept : ℕ → Event P
  drained : Platform.Response P → Event P
  acquired : Event P
  released : Event P
  sent : HttpRequest P → Event P
  -- cookies added to the client's jar
  stored : Dict Text → Event P

-- the events so far, the newest first
abbrev pub Trace : Platform → Type 0
Trace P = List (Event P)

-- what `reqwest::Client::execute` gives
pub data Reply (P : Platform) : Type 0 where
  response : Platform.Response P → Reply P
  failure : Platform.NetError P → Reply P

pub record Env (P : Platform) : Type 0 where
  -- `Instant::now`, in nanoseconds
  pub clock : Trace P → ℕ
  -- `rand::random::<f32>`
  pub random : Trace P → Platform.F32 P
  pub execute : Trace P → HttpRequest P → Reply P
  -- `reqwest::Request::try_clone`
  pub try_clone : HttpRequest P → Option (HttpRequest P)

-- why a computation gives no value: an error, a panic, or no end: the fuel of a loop is spent, or a
-- permit never comes
pub data Failure : Type 0 where
  raised : RqxCoreError → Failure
  panicked : Failure
  starved : Failure

pub data Answer (A : Type 0) : Type 0 where
  returned : A → Answer A
  failed : Failure → Answer A

pub data Unit₁ : Type 0 where
  unit : Unit₁

abbrev pub M : Platform → Type 0 → Type 0
M P A = Trace P → Answer A × Trace P

module _ {P : Platform} where
  abbrev pub pure : {A : Type 0} → A → M P A
  pure a tr = (returned a, tr)

  abbrev pub fail : {A : Type 0} → Failure → M P A
  fail f tr = (failed f, tr)

  abbrev pub raise : {A : Type 0} → RqxCoreError → M P A
  raise e = fail (raised e)

  abbrev pub resume : {A B : Type 0} → (A → M P B) → Answer A × Trace P → Answer B × Trace P
  resume f (returned a, tr) = f a tr
  resume f (failed e, tr) = (failed e, tr)

  infixl 5 ◌>>=◌
  unfoldable pub ◌>>=◌ : {A B : Type 0} → M P A → (A → M P B) → M P B
  (m >>= f) tr = resume f (m tr)

  infixl 5 ◌>>◌
  abbrev pub ◌>>◌ : {A B : Type 0} → M P A → M P B → M P B
  m >> n = m >>= λ a. n

  abbrev pub emit : Event P → M P Unit₁
  emit e tr = (returned unit, e ∷ tr)

  -- the option's value, or the error
  abbrev pub ok_or : {A : Type 0} → Option A → RqxCoreError → M P A
  ok_or none e = raise e
  ok_or (some a) e = pure a

  module _ (E : Env P) where
    unfoldable pub now : M P ℕ
    now tr = (returned (Env.clock E tr), looked ∷ tr)

    unfoldable pub draw : M P (Platform.F32 P)
    draw tr = (returned (Env.random E tr), drew ∷ tr)

    unfoldable pub call : HttpRequest P → M P (Reply P)
    call request tr = (returned (Env.execute E tr request), sent request ∷ tr)

-- `tokio::time::sleep(Duration::from_secs_f32(seconds))`
unfoldable pub sleep : (P : Platform) → Platform.F32 P → M P Unit₁
sleep P seconds = elim (Platform.from_secs32 P seconds) [
  | none ↦ fail panicked
  | some time ↦ emit (slept time)
]
