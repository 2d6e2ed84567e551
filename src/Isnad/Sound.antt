-- ===== src/Isnad/Sound.antt =====
-- What a valid chain of src/isnad.mjs shows.
use ttp_protocol.Common.{
  ◌↔◌, ◌≡◌, ◌≢◌, ◌≤◌, ◌⊎◌, refl, String, Bool, true, false, ℕ, Option, none, some, List, [], ◌∷◌,
  Numbers, In, All, length, is_empty-eq-nil, append-nil_iff, fail_if-nil_iff,
}
use ttp_protocol.Isnad.{
  Link, Chain, next_amount, link_failures, links_failures, chain_failures, verify_isnad_chain,
}
use ttp_protocol.Isnad.Checks.{
  nonempty_iff, present_iff, no_self_iff, continues_iff, unexpired_iff, in_scope_iff, trusted_iff,
  proofs_iff, onward_iff, root_iff, exceeds_iff, IsAmount, Attenuates, amount_failures-IsAmount,
  next_amount-IsAmount, IsAmount-amount_failures,
}

module _ {Num : Type 0} ⦃number : Numbers Num⦄ (date : String → Option ℕ) (i : Chain Num) where
  -- A link on its own: both ends are named and differ unless a link to oneself is allowed, it has
  -- not expired, its scope holds the action, its issuer is trusted, no proof is left empty, and its
  -- amount is a number from 0 to 1 that is not below the minimum.
  pub record IsSoundLink (l : Link Num) : Type 0 where
    pub identified : (l.issuer ≢ "") × (l.subject ≢ "")
    pub no_self : (l.issuer ≢ l.subject) ⊎ (i.allow_self ≡ true)
    pub unexpired :
        (due at : ℕ) → date l.expires_at ≡ some due → date i.current_time ≡ some at → at ≤ due
    pub in_scope : (a : String) → i.requested_action ≡ some a → a ≢ "" → In a l.scope
    pub narrator : (names : List String) → i.trusted_authorities ≡ some names → In l.issuer names
    pub proofs : ¬ In "" l.proof_refs
    pub amount : IsAmount date i l.amount

  -- Two links in a row: the second is issued by the subject of the first, which is transferable,
  -- and its amount is not above the first one where trust must not grow.
  pub record Passes (l m : Link Num) : Type 0 where
    pub continuous : m.issuer ≡ l.subject
    pub onward : l.transferable ≢ some false
    pub attenuates : Attenuates date i l.amount m.amount

  abbrev pub Linked : List (Link Num) → Type 0
  Linked [] = Unit
  Linked (l ∷ []) = Unit
  Linked (l ∷ m ∷ ls) = Passes l m × Linked (m ∷ ls)

  -- A sound chain.
  pub record IsSound : Type 0 where
    pub nonempty : i.links ≢ []
    pub short :
        (limit : Num)
        → i.max_length ≡ some limit
        → number.lt limit (number.decimal (length i.links) 0) ≡ false
    pub rooted :
        (a : String) (l : Link Num) (rest : List (Link Num))
        → i.root_authority ≡ some a
        → a ≢ ""
        → i.links ≡ l ∷ rest
        → l.issuer ≡ a
    pub sound : All IsSoundLink i.links
    pub linked : Linked i.links

  -- How a link goes on from the subject and the amount before it.
  abbrev Continues : Option String → Option Num → Link Num → Type 0
  Continues prior previous l =
      ((s : String) → prior ≡ some s → l.issuer ≡ s) × Attenuates date i previous l.amount

  link_failures-IsSoundLink :
      (prior : Option String) (previous : Option Num) (last : Bool) (l : Link Num)
      → link_failures date i prior previous last l ≡ []
      → IsSoundLink l × (Continues prior previous l × (last ≡ false → l.transferable ≢ some false))
  unfolding link_failures
  link_failures-IsSoundLink prior previous last l e =
      let (a, e1) = (append-nil_iff _ _).0 e in
      let (b, e2) = (append-nil_iff _ _).0 e1 in
      let (g, e3) = (append-nil_iff _ _).0 e2 in
      let (x, e4) = (append-nil_iff _ _).0 e3 in
      let (s, e5) = (append-nil_iff _ _).0 e4 in
      let (t, e6) = (append-nil_iff _ _).0 e5 in
      let (n, e7) = (append-nil_iff _ _).0 e6 in
      let (r, m) = (append-nil_iff _ _).0 e7 in
      let (amount, kept) = amount_failures-IsAmount date i previous l.amount m in
      (
        record {
          identified = (present_iff _ _).0 ((fail_if-nil_iff _ _).0 a);
          no_self = (no_self_iff _ _ _).0 ((fail_if-nil_iff _ _).0 b);
          unexpired = (unexpired_iff _ _).0 ((fail_if-nil_iff _ _).0 x);
          in_scope = (in_scope_iff _ _).0 ((fail_if-nil_iff _ _).0 s);
          narrator = (trusted_iff _ _).0 ((fail_if-nil_iff _ _).0 n);
          proofs = (proofs_iff _).0 ((fail_if-nil_iff _ _).0 r);
          amount = amount;
        },
        (
          ((continues_iff _ _).0 ((fail_if-nil_iff _ _).0 g), kept),
          (onward_iff _ _).0 ((fail_if-nil_iff _ _).0 t),
        ),
      )

  IsSoundLink-link_failures :
      (prior : Option String) (previous : Option Num) (last : Bool) (l : Link Num)
      → IsSoundLink l
      → Continues prior previous l
      → (last ≡ false → l.transferable ≢ some false)
      → link_failures date i prior previous last l ≡ []
  unfolding link_failures
  IsSoundLink-link_failures prior previous last l h (g, kept) t =
      rw
        (
          (present_iff _ _).1 h.identified,
          (no_self_iff _ _ _).1 h.no_self,
          (continues_iff _ _).1 g,
          (unexpired_iff _ _).1 h.unexpired,
          (in_scope_iff _ _).1 h.in_scope,
          (onward_iff last _).1 t,
          (trusted_iff _ _).1 h.narrator,
          (proofs_iff _).1 h.proofs,
        )
        (IsAmount-amount_failures date i previous l.amount h.amount kept)

  links_failures-Linked :
      (prior : Option String) (previous : Option Num) (l : Link Num) (ls : List (Link Num))
      → links_failures date i prior previous (l ∷ ls) ≡ []
      → Continues prior previous l × (All IsSoundLink (l ∷ ls) × Linked (l ∷ ls))
  unfolding links_failures
  links_failures-Linked prior previous l [] e =
      let (h, (g, _)) =
        link_failures-IsSoundLink prior previous true l ((append-nil_iff _ _).0 e).0 in
      (g, ((h, tt), tt))
  links_failures-Linked prior previous l (m ∷ ms) e =
      let (now, later) = (append-nil_iff _ _).0 e in
      let (h, (g, t)) = link_failures-IsSoundLink prior previous false l now in
      let ((next, kept), (sound, linked)) =
        links_failures-Linked (some l.subject) (next_amount date previous l.amount) m ms later in
      let passes : Passes l m = record {
        continuous = next l.subject refl;
        onward = t refl;
        attenuates = rw (next_amount-IsAmount date i previous l.amount h.amount) at kept;
      } in
      (g, ((h, sound), (passes, linked)))

  Linked-links_failures :
      (prior : Option String) (previous : Option Num) (l : Link Num) (ls : List (Link Num))
      → Continues prior previous l
      → All IsSoundLink (l ∷ ls)
      → Linked (l ∷ ls)
      → links_failures date i prior previous (l ∷ ls) ≡ []
  unfolding links_failures
  Linked-links_failures prior previous l [] g (h, _) linked =
      rw (IsSoundLink-link_failures prior previous true l h g (λ no'. cc)) refl
  Linked-links_failures prior previous l (m ∷ ms) g (h, hs) (passes, linked) =
      rw
        (
          IsSoundLink-link_failures prior previous false l h g (λ _. passes.onward),
          next_amount-IsAmount date i previous l.amount h.amount,
        )
        (Linked-links_failures (some l.subject) l.amount m ms
          ((λ s same. cc passes.continuous), passes.attenuates) hs linked)

  -- The first link goes on from nothing.
  links-Linked :
      (ls : List (Link Num))
      → links_failures date i none none ls ≡ []
      → All IsSoundLink ls × Linked ls
  links-Linked [] e = (tt, tt)
  links-Linked (l ∷ ls) e = (links_failures-Linked none none l ls e).1

  Linked-links :
      (ls : List (Link Num))
      → All IsSoundLink ls
      → Linked ls
      → links_failures date i none none ls ≡ []
  unfolding links_failures
  Linked-links [] sound linked = refl
  Linked-links (l ∷ ls) sound linked =
      Linked-links_failures none none l ls ((λ s same. cc), (λ on a b same. cc)) sound linked

-- A chain is valid exactly when it is sound: it is not empty nor longer than allowed, it starts at
-- the root authority where one is given, every link is sound on its own, and of every two links in
-- a row the second is issued by the subject of the first, the first is transferable and, where
-- trust must not grow, the amount does not.
pub verify_isnad_chain_iff :
    {Num : Type 0} ⦃number : Numbers Num⦄ (date : String → Option ℕ) (i : Chain Num)
    → (verify_isnad_chain date i ≡ true) ↔ IsSound date i
unfolding verify_isnad_chain chain_failures
verify_isnad_chain_iff date i = (
  (λ h.
      let (some', e1) = (append-nil_iff _ _).0 (is_empty-eq-nil _ h) in
      let (short, e2) = (append-nil_iff _ _).0 e1 in
      let (root, linked) = (append-nil_iff _ _).0 e2 in
      let (sound, passes) = links-Linked date i i.links linked in
      record {
        nonempty = (nonempty_iff _).0 ((fail_if-nil_iff _ _).0 some');
        short = (exceeds_iff date _ _).0 ((fail_if-nil_iff _ _).0 short);
        rooted = (root_iff date _ _).0 ((fail_if-nil_iff _ _).0 root);
        sound = sound;
        linked = passes;
      }),
  (λ h.
      rw
        (
          (nonempty_iff _).1 h.nonempty,
          (exceeds_iff date _ _).1 h.short,
          (root_iff date _ _).1 h.rooted,
          Linked-links date i i.links h.sound h.linked,
        )
        refl),
)
