-- ===== src/PyTransport/Policy.antt =====
-- The redirect policy that a client's options come to, in crates/rqx/src/redirect.rs.
use rqx.Base.{
  ℕ, Text, true≢false, ◌↔◌, text, nat_beq_iff, Bool, true, false, Option, none, some, if◌then◌else◌,
  ◌≡◌, refl, arith,
}
use rqx.Exceptions.{PyResult, py_ok, py_err, new_err}
use rqx.Exceptions.Classes
use rqx.Redirect.{RedirectPolicy, with_defaults, default_policy}
use rqx.Response.{unwrap_or}
use rqx.PyTransport.{limit_differs, follow_differs, checked_policy, valid_policy_from_options}

-- an option that is given has the value that is in force
abbrev pub Honours : {A : Type 0} → Option A → A → Type 0
Honours none value = Unit {0}
Honours (some given) value = value ≡ given

pub data PolicyPost (follow : Option Bool) (limit : Option ℕ) (given : Option RedirectPolicy)
    : PyResult RedirectPolicy → Type 0 where
  in_force :
      (r : RedirectPolicy)
      → Honours follow r.follow
      → Honours limit r.max_redirects
      → Honours given r
      → PolicyPost follow limit given (py_ok r)
  conflict :
      (r : RedirectPolicy) (message : Text)
      → given ≡ some r
      → ((Honours follow r.follow × Honours limit r.max_redirects) → ⊥)
      → PolicyPost follow limit given (py_err (new_err Classes.rqx_error message))

limit_differs-Honours :
    (limit : Option ℕ) (r : RedirectPolicy)
    → (limit_differs limit r ≡ false) ↔ Honours limit r.max_redirects
limit_differs-Honours none r = (λ h. tt, λ h. refl)
limit_differs-Honours (some n) r = ground (arith, nat_beq_iff r.max_redirects n)

follow_differs-Honours :
    (follow : Option Bool) (r : RedirectPolicy)
    → (follow_differs follow r ≡ false) ↔ Honours follow r.follow
follow_differs-Honours none r = (λ h. tt, λ h. refl)
follow_differs-Honours (some b) r = ground arith

checked-PolicyPost :
    (follow : Option Bool) (limit : Option ℕ) (r : RedirectPolicy)
    → PolicyPost follow limit (some r) (checked_policy follow limit r)
unfolding checked_policy
checked-PolicyPost follow limit r =
    by_tests (limit_differs limit r) (follow_differs follow r) (limit_differs-Honours limit r)
      (follow_differs-Honours follow r)
  where
    by_tests :
        (b c : Bool)
        → (b ≡ false) ↔ Honours limit r.max_redirects
        → (c ≡ false) ↔ Honours follow r.follow
        → PolicyPost follow limit (some r) (
            if b
            then py_err (
                new_err Classes.rqx_error (
                  text "Cannot specify conflicting max_redirects and RedirectPolicy.max_redirects"))
            else if c
            then py_err (
                new_err Classes.rqx_error
                  (text "Cannot specify conflicting follow_redirects and RedirectPolicy.follow"))
            else py_ok r)
    by_tests true c h k = conflict r _ refl (λ o. true≢false (h.1 o.1))
    by_tests false true h k = conflict r _ refl (λ o. true≢false (k.1 o.0))
    by_tests false false h k = in_force r (k.0 refl) (h.0 refl) refl

-- Each of `follow_redirects=`, `max_redirects=` and `redirects=` that is given is in force in the
-- client's policy; options that contradict each other raise an RqxError.
pub valid_policy-PolicyPost :
    (follow : Option Bool) (limit : Option ℕ) (given : Option RedirectPolicy)
    → PolicyPost follow limit given (valid_policy_from_options follow limit given)
unfolding valid_policy_from_options with_defaults
valid_policy-PolicyPost follow limit (some r) = checked-PolicyPost follow limit r
valid_policy-PolicyPost follow limit none =
    in_force (with_defaults follow limit none) (by_follow follow) (by_limit limit) tt
  where
    by_follow : (o : Option Bool) → Honours o (unwrap_or o default_policy.follow)
    by_follow none = tt
    by_follow (some b) = refl

    by_limit : (o : Option ℕ) → Honours o (unwrap_or o default_policy.max_redirects)
    by_limit none = tt
    by_limit (some n) = refl
