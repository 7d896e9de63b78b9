-- ===== src/Retry.antt =====
-- crates/rqx-core/src/retry.rs: what may be retried, and how often. The lists stand for the
-- `HashSet`s, of which the code asks only for membership.
pub mod Budget
use rqx.Base.{
  ℕ, Text, text, text_eq, nat_eq, ◌==◌, Bool, true, false, List, [], ◌∷◌, Option, none, some,
  if◌then◌else◌, any,
}
use rqx.Base.Int.{ℤ, pos, ltb_ℤ, leb_ℤ, incr_i32}
use rqx.Platform.{Platform}

pub data FailureKind : Type 0 where
  connect read status : FailureKind

-- `from_request_error`, for an error whose `is_connect` is given
unfoldable pub kind_of : Bool → FailureKind
kind_of true = connect
kind_of false = read

pub record RetryCounts : Type 0 where
  pub total : ℤ
  pub connect : ℤ
  pub read : ℤ
  pub status : ℤ

abbrev pub no_retries : RetryCounts
no_retries = record { total = pos 0; connect = pos 0; read = pos 0; status = pos 0 }

-- `RetryCounts::record`
unfoldable pub count : RetryCounts → FailureKind → RetryCounts
count c connect = record c { total = incr_i32 c.total; connect = incr_i32 c.connect }
count c read = record c { total = incr_i32 c.total; read = incr_i32 c.read }
count c status = record c { total = incr_i32 c.total; status = incr_i32 c.status }

abbrev pub unwrap_or {ℓ} : {A : Type ℓ} → Option A → A → A
unwrap_or none d = d
unwrap_or (some a) d = a

module _ (P : Platform) where
  open P use {F32, F64}

  pub record Retry : Type 0 where
    pub total : ℤ
    pub connect : ℤ
    pub read : ℤ
    pub status : ℤ
    pub backoff_factor : F32
    pub backoff_max : F32
    pub backoff_jitter : F32
    pub status_forcelist : List ℕ
    pub allowed_methods : List Text
    pub respect_retry_after_header : Bool
    pub raise_on_status : Bool
    pub total_timeout : Option F64

abbrev pub default_total_retries : ℤ
default_total_retries = pos 3

abbrev pub default_allowed_methods : List Text
default_allowed_methods =
    text "DELETE" ∷ text "GET" ∷ text "HEAD" ∷ text "OPTIONS" ∷ text "PUT" ∷ []

module _ (P : Platform) (backoff_max_default : Platform.F32 P) where
  open P use {F32, F64, zero32}

  -- `Retry::new`; `backoff_max_default` is the literal 120.0
  unfoldable pub new :
      Option ℤ
      → Option ℤ
      → Option ℤ
      → Option ℤ
      → Option F32
      → Option F32
      → Option F32
      → Option (List ℕ)
      → Option (List Text)
      → Option Bool
      → Option Bool
      → Option F64
      → Retry P
  new total connects reads statuses factor max jitter forcelist methods respect raise timeout =
      let default_total = unwrap_or total default_total_retries in
      record {
        total = default_total;
        connect = unwrap_or connects default_total;
        read = unwrap_or reads default_total;
        status = unwrap_or statuses default_total;
        backoff_factor = unwrap_or factor zero32;
        backoff_max = unwrap_or max backoff_max_default;
        backoff_jitter = unwrap_or jitter zero32;
        status_forcelist = unwrap_or forcelist [];
        allowed_methods = unwrap_or methods default_allowed_methods;
        respect_retry_after_header = unwrap_or respect true;
        raise_on_status = unwrap_or raise true;
        total_timeout = timeout;
      }

module _ {P : Platform} where
  abbrev room : Retry P → FailureKind → RetryCounts → Bool
  room r connect used = ltb_ℤ used.connect r.connect
  room r read used = ltb_ℤ used.read r.read
  room r status used = ltb_ℤ used.status r.status

  unfoldable pub allows_another : Retry P → FailureKind → RetryCounts → Bool
  allows_another r kind used = if leb_ℤ r.total used.total then false else room r kind used

  -- `HashSet::contains`
  abbrev pub forces : Retry P → ℕ → Bool
  forces r code = any (λ s. s == code) r.status_forcelist

  abbrev pub allows_method : Retry P → Text → Bool
  allows_method r method = any (λ m. m == method) r.allowed_methods
