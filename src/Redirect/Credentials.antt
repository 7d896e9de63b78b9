-- ===== src/Redirect/Credentials.antt =====
-- What the request after a redirect carries over: crates/rqx-core/src/redirect.rs.
use rqx.Base.{
  ◌⊎◌, inl, inr, ◌↔◌, some, Option, ◌&&◌, arith, text_beq_iff, ℕ, Text, text, text_eq, list_beq,
  list_beq_iff, nat_eq, ◌==◌, Bool, true, false, not, none, if◌then◌else◌, ◌≡◌, ◌≢◌, refl, sym, ap,
  ◌∙◌, true≢false,
}
use rqx.Platform.{Platform, HttpRequest}
use rqx.Redirect.{
  is_upgrade, is_port, authorization, cookie, content_length, content_type, transfer_encoding,
  redirect_method, keeps_authorization, remove_content, redirected_request,
}

-- `HeaderMap::remove` takes away all values of its name, and no others
pub record RemovesHeaders (P : Platform) : Type 0 where
  pub removed :
      (h : Platform.HeaderMap P) (name : Text)
      → Platform.get_header P (Platform.remove_header P h name) name ≡ none
  pub others :
      (h : Platform.HeaderMap P) (name other : Text)
      → name ≢ other
      → Platform.get_header P (Platform.remove_header P h name) other
        ≡ Platform.get_header P h other

-- texts that the test tells apart
differ : (a b : Text) → list_beq a b ≡ false → a ≢ b
differ a b apart e = absurd (true≢false (sym ((list_beq_iff a b).1 e) ∙ apart))

cookie≢authorization : cookie ≢ authorization
unfolding text list_beq
cookie≢authorization = differ cookie authorization refl

content_length≢authorization : content_length ≢ authorization
unfolding text list_beq
content_length≢authorization = differ content_length authorization refl

content_type≢authorization : content_type ≢ authorization
unfolding text list_beq
content_type≢authorization = differ content_type authorization refl

transfer_encoding≢authorization : transfer_encoding ≢ authorization
unfolding text list_beq
transfer_encoding≢authorization = differ transfer_encoding authorization refl

authorization≢cookie : authorization ≢ cookie
authorization≢cookie e = cookie≢authorization (sym e)

-- a port, and the test for it
is_port-some : (n : ℕ) (o : Option ℕ) → (is_port n o ≡ true) ↔ (o ≡ some n)
is_port-some n none = (λ e. ground arith, λ e. ground arith)
is_port-some n (some k) = (λ e. ground arith, λ e. ground arith)

-- four tests, each of which decides a fact
all_four :
    (a b c d : Bool) {A B C D : Type 0}
    → ((a ≡ true) ↔ A)
    → ((b ≡ true) ↔ B)
    → ((c ≡ true) ↔ C)
    → ((d ≡ true) ↔ D)
    → (((a && b && c && d) ≡ true) × (A × B × C × D))
      ⊎ (((a && b && c && d) ≡ false) × ((A × B × C × D) → ⊥))
all_four true true true true p q r s = inl (refl, (p.0 refl, q.0 refl, r.0 refl, s.0 refl))
all_four true true true false p q r s = inr (refl, λ u. true≢false (sym (s.1 u.3)))
all_four true true false d p q r s = inr (refl, λ u. true≢false (sym (r.1 u.2)))
all_four true false c d p q r s = inr (refl, λ u. true≢false (sym (q.1 u.1)))
all_four false b c d p q r s = inr (refl, λ u. true≢false (sym (p.1 u.0)))

module _ (P : Platform) where
  -- A redirect from port 80 of `http` to port 443 of `https`.
  abbrev pub Upgrades : Platform.Url P → Platform.Url P → Type 0
  Upgrades current next =
      (Platform.port_or_known_default P current ≡ some 80)
      × (Platform.port_or_known_default P next ≡ some 443)
      × (Platform.scheme P current ≡ text "http")
      × (Platform.scheme P next ≡ text "https")

  -- The credentials may follow: an upgrade on one host, or else a redirect within one origin.
  abbrev pub IsTrusted : Platform.Url P → Platform.Url P → Type 0
  IsTrusted current next =
      (Upgrades current next × (Platform.same_host P current next ≡ true))
      ⊎ ((Upgrades current next → ⊥) × (Platform.same_origin P current next ≡ true))

  -- the test of an upgrade, either way
  upgrade-Upgrades :
      (current next : Platform.Url P)
      → ((is_upgrade P current next ≡ true) × Upgrades current next)
        ⊎ ((is_upgrade P current next ≡ false) × (Upgrades current next → ⊥))
  upgrade-Upgrades current next =
      all_four (is_port 80 (Platform.port_or_known_default P current))
        (is_port 443 (Platform.port_or_known_default P next))
        (Platform.scheme P current == text "http") (Platform.scheme P next == text "https")
        (is_port-some 80 _) (is_port-some 443 _) (text_beq_iff _ _) (text_beq_iff _ _)

  keeps_authorization-IsTrusted :
      (current next : Platform.Url P)
      → ((keeps_authorization P current next ≡ true) × IsTrusted current next)
        ⊎ ((keeps_authorization P current next ≡ false) × (IsTrusted current next → ⊥))
  unfolding keeps_authorization
  keeps_authorization-IsTrusted current next = elim (upgrade-Upgrades current next) [
    | inl (e, u) ↦ by_host (Platform.same_host P current next) refl e u
    | inr (e, other) ↦ by_origin (Platform.same_origin P current next) refl e other
  ]
    where
      Goal : Type 0
      Goal =
          ((keeps_authorization P current next ≡ true) × IsTrusted current next)
          ⊎ ((keeps_authorization P current next ≡ false) × (IsTrusted current next → ⊥))

      by_host :
          (b : Bool)
          → Platform.same_host P current next ≡ b
          → is_upgrade P current next ≡ true
          → Upgrades current next
          → Goal
      by_host true q e u = inl (ground arith, inl (u, q))
      by_host false q e u = inr (
        ground arith,
        λ t. elim t [ inl (v, h) ↦ true≢false (sym h ∙ q) | inr (other, o) ↦ other u ],
      )

      by_origin :
          (b : Bool)
          → Platform.same_origin P current next ≡ b
          → is_upgrade P current next ≡ false
          → (Upgrades current next → ⊥)
          → Goal
      by_origin true q e other = inl (ground arith, inr (other, q))
      by_origin false q e other =
          inr (
            ground arith,
            λ t. elim t [ inl (u, h) ↦ other u | inr (v, o) ↦ true≢false (sym o ∙ q) ],
          )

module _ (P : Platform) (laws : RemovesHeaders P) where
  open P use {get_header, remove_header}

  abbrev described : Bool → Platform.HeaderMap P → Platform.HeaderMap P
  described changed h = if changed then remove_content P h else h

  authorization-described :
      (changed : Bool) (h : Platform.HeaderMap P)
      → get_header (described changed h) authorization ≡ get_header h authorization
  authorization-described true h =
      laws.others _ transfer_encoding authorization transfer_encoding≢authorization
      ∙ laws.others _ content_type authorization content_type≢authorization
      ∙ laws.others h content_length authorization content_length≢authorization
  authorization-described false h = refl

  abbrev carried : Bool → Platform.HeaderMap P → Platform.HeaderMap P
  carried keeps h =
      if keeps then remove_header h cookie else remove_header (remove_header h cookie) authorization

  cookie-carried :
      (keeps : Bool) (h : Platform.HeaderMap P) → get_header (carried keeps h) cookie ≡ none
  cookie-carried true h = laws.removed h cookie
  cookie-carried false h =
      laws.others _ authorization cookie authorization≢cookie ∙ laws.removed h cookie

  authorization-carried :
      (keeps : Bool) (h : Platform.HeaderMap P)
      → get_header (carried keeps h) authorization
        ≡ (if keeps then get_header h authorization else none)
  authorization-carried true h = laws.others h cookie authorization cookie≢authorization
  authorization-carried false h = laws.removed _ authorization

  -- A redirected request has no `Cookie`; its `Authorization` is the original's where the redirect
  -- goes from port 80 of `http` to port 443 of `https` on one host, or is no such upgrade and keeps to
  -- the origin; and it has none where neither is so.
  pub redirected_request-credentials :
      (request : HttpRequest P) (code : ℕ) (url : Platform.Url P)
      → (get_header (redirected_request P request code url).headers cookie ≡ none)
        × ((IsTrusted P request.url url
              × (get_header (redirected_request P request code url).headers authorization
                  ≡ get_header request.headers authorization))
            ⊎ ((IsTrusted P request.url url → ⊥)
                × (get_header (redirected_request P request code url).headers authorization
                    ≡ none)))
  unfolding redirected_request
  redirected_request-credentials request code url =
      let changed = not (redirect_method request.method code == request.method) in
      let keeps = keeps_authorization P request.url url in
      let kept : get_header (redirected_request P request code url).headers authorization
          ≡ (if keeps then get_header request.headers authorization else none) =
        authorization-carried keeps (described changed request.headers)
        ∙ ap (λ o. if keeps then o else none) (authorization-described changed request.headers) in
      let original = get_header request.headers authorization in
      (
        cookie-carried keeps (described changed request.headers),
        elim (keeps_authorization-IsTrusted P request.url url) [
          | inl (e, trusted) ↦ inl (trusted, kept ∙ ap (λ b. if b then original else none) e)
          | inr (e, denied) ↦ inr (denied, kept ∙ ap (λ b. if b then original else none) e)
        ],
      )
