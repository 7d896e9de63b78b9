-- ===== src/Retry/Budget.antt =====
-- The counters of crates/rqx-core/src/retry.rs against the limits of a configuration.
use rqx.Base.{
  ℕ, ◌+◌, ◌≤◌, ◌<◌, Bool, true, false, ◌≡◌, refl, arith, ap, if◌then◌else◌, sym, ap₂, ◌∙◌,
}
use rqx.Base.Int.{ℤ, pos, negsuc, pos_part, ltb_ℤ, incr_i32, i32_max, leb_ℤ}
use rqx.Platform.{Platform}
use rqx.Retry.{FailureKind, connect, read, status, RetryCounts, count, Retry, allows_another, room}

-- how often each kind of failure was retried
pub record Tally : Type 0 where
  pub connects : ℕ
  pub reads : ℕ
  pub statuses : ℕ

abbrev pub sum : Tally → ℕ
sum t = t.connects + t.reads + t.statuses

abbrev pub no_tally : Tally
no_tally = record { connects = 0; reads = 0; statuses = 0 }

abbrev pub counts : Tally → RetryCounts
counts t = record {
  total = pos (sum t);
  connect = pos t.connects;
  read = pos t.reads;
  status = pos t.statuses;
}

abbrev pub bump : Tally → FailureKind → Tally
bump t connect = record t { connects = t.connects + 1 }
bump t read = record t { reads = t.reads + 1 }
bump t status = record t { statuses = t.statuses + 1 }

-- the limit as a number of retries: none if it is negative
abbrev pub limit : ℤ → ℕ
limit = pos_part

pub record Fits {P : Platform} (r : Retry P) (t : Tally) : Type 0 where
  pub total_fits : sum t ≤ limit r.total
  pub connects_fit : t.connects ≤ limit r.connect
  pub reads_fit : t.reads ≤ limit r.read
  pub statuses_fit : t.statuses ≤ limit r.status

pub no_tally-Fits : {P : Platform} (r : Retry P) → Fits r no_tally
no_tally-Fits r = record {
  total_fits = omega arith;
  connects_fit = omega arith;
  reads_fit = omega arith;
  statuses_fit = omega arith;
}

incr_i32_pos : (n : ℕ) → n < i32_max → incr_i32 (pos n) ≡ pos (n + 1)
incr_i32_pos n lt = ground arith

pub sum-bump : (t : Tally) (kind : FailureKind) → sum (bump t kind) ≡ sum t + 1
sum-bump t connect = omega arith
sum-bump t read = omega arith
sum-bump t status = omega arith

below_limit : (l : ℤ) (n : ℕ) → leb_ℤ l (pos n) ≡ false → n < pos_part l
below_limit (pos m) n h = ground arith
below_limit (negsuc m) n h = ground arith

below_room : (l : ℤ) (n : ℕ) → ltb_ℤ (pos n) l ≡ true → n < pos_part l
below_room (pos m) n h = ground arith
below_room (negsuc m) n h = ground arith

-- the two tests of `allows_another`
both : (b c : Bool) → (if b then false else c) ≡ true → (b ≡ false) × (c ≡ true)
both true c h = grind arith
both false c h = (refl, h)

allowed :
    {P : Platform} (r : Retry P) (kind : FailureKind) (used : RetryCounts)
    → allows_another r kind used ≡ true
    → (leb_ℤ r.total used.total ≡ false) × (room r kind used ≡ true)
unfolding allows_another
allowed r kind used h = both (leb_ℤ r.total used.total) (room r kind used) h

abbrev tuple : ℤ → ℤ → ℤ → ℤ → RetryCounts
tuple a b c d = record { total = a; connect = b; read = c; status = d }

-- A retry that is allowed is recorded without overflow and stays within every limit.
pub count-bump :
    {P : Platform} (r : Retry P) (kind : FailureKind) (t : Tally)
    → limit r.total ≤ i32_max
    → Fits r t
    → allows_another r kind (counts t) ≡ true
    → (count (counts t) kind ≡ counts (bump t kind)) × Fits r (bump t kind)
unfolding count
count-bump r connect t bounded v h =
    let a = allowed r connect (counts t) h in
    let below = below_limit r.total (sum t) a.0 in
    let left = below_room r.connect t.connects a.1 in
    let p = incr_i32_pos (sum t) (omega arith) ∙ ap pos (sym (sum-bump t connect)) in
    (
      ap₂ (λ a b. tuple a b (pos t.reads) (pos t.statuses)) p
          (incr_i32_pos t.connects (omega arith)),
      record {
        total_fits = omega arith;
        connects_fit = omega arith;
        reads_fit = v.reads_fit;
        statuses_fit = v.statuses_fit;
      },
    )
count-bump r read t bounded v h =
    let a = allowed r read (counts t) h in
    let below = below_limit r.total (sum t) a.0 in
    let left = below_room r.read t.reads a.1 in
    let p = incr_i32_pos (sum t) (omega arith) ∙ ap pos (sym (sum-bump t read)) in
    (
      ap₂ (λ a b. tuple a (pos t.connects) b (pos t.statuses)) p
          (incr_i32_pos t.reads (omega arith)),
      record {
        total_fits = omega arith;
        connects_fit = v.connects_fit;
        reads_fit = omega arith;
        statuses_fit = v.statuses_fit;
      },
    )
count-bump r status t bounded v h =
    let a = allowed r status (counts t) h in
    let below = below_limit r.total (sum t) a.0 in
    let left = below_room r.status t.statuses a.1 in
    let p = incr_i32_pos (sum t) (omega arith) ∙ ap pos (sym (sum-bump t status)) in
    (
      ap₂ (λ a b. tuple a (pos t.connects) (pos t.reads) b) p
          (incr_i32_pos t.statuses (omega arith)),
      record {
        total_fits = omega arith;
        connects_fit = v.connects_fit;
        reads_fit = v.reads_fit;
        statuses_fit = omega arith;
      },
    )
