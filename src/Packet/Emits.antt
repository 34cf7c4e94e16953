-- ===== src/Packet/Emits.antt =====
-- What it means that an action sends a stream, or a beginning of it on a fault.
use mysqlmock.Base.{
  ◌⊎◌, inl, inr, List, ◌∷◌, ◌≡◌, refl, sym, ap, ◌∙◌, Bool, true, false, [], ◌++◌, append-nil,
  append_assoc, Bytes,
}
use mysqlmock.Packet.{Fault, ◌>>=◌, continue, NetError, Net, Exec, pure}
use mysqlmock.Errors.{Result, ok, err}

abbrev pub succeeds : {A : Type 0} → Result NetError A → Bool
succeeds (ok a) = true
succeeds (err e) = false

abbrev pub no_faults : Net → Bool
no_faults net = elim net.faults [ [] ↦ true | f ∷ fs ↦ false ]

-- Either the test fails or what follows from it holds.
pub unless {ℓ} : {P : Type ℓ} (b : Bool) → (b ≡ true → P) → (b ≡ false) ⊎ P
unless true f = inr (f refl)
unless false f = inl refl

pub given {ℓ} : {P : Type ℓ} (b : Bool) → (b ≡ false) ⊎ P → b ≡ true → P
given true (inl e) h = cc
given true (inr p) h = p
given false q h = cc

no_faults-empty : (net : Net) → no_faults net ≡ true → net.faults ≡ []
no_faults-empty net h = by_list net.faults h
  where
    by_list : (fs : List Fault) → (elim fs [ [] ↦ true | f ∷ gs ↦ false ]) ≡ true → fs ≡ []
    by_list [] e = refl
    by_list (f ∷ fs) e = cc

empty-no_faults : (net : Net) → net.faults ≡ [] → no_faults net ≡ true
empty-no_faults net e = rw e refl

-- From `net`, with the outcome `r`, the bytes `sent` of `stream` have gone out.
pub record Emits {A : Type 0} (net : Net) (r : Result NetError A × Net) (stream : Bytes)
    : Type 0 where
  pub sent : Bytes
  pub unsent : Bytes
  pub splits : sent ++ unsent ≡ stream
  pub outbound_grows : r.1.outbound ≡ net.outbound ++ sent
  pub inbound_kept : r.1.inbound ≡ net.inbound
  pub complete : (succeeds r.0 ≡ false) ⊎ (unsent ≡ [])
  pub faultless : (no_faults net ≡ false) ⊎ (succeeds r.0 ≡ true) × (r.1.faults ≡ [])

pub Emits-pure : {A : Type 0} (a : A) (net : Net) → Emits net (pure a net) []
Emits-pure a net = record {
  sent = [];
  unsent = [];
  splits = refl;
  outbound_grows = sym (append-nil net.outbound);
  inbound_kept = refl;
  complete = inr refl;
  faultless = unless (no_faults net) (λ e. (refl, no_faults-empty net e));
}

Emits-continue :
    {A B : Type 0} (net : Net) (r : Result NetError A) (net1 : Net) (f : A → Exec B)
    (first second : Bytes)
    → Emits net (r, net1) first
    → ((a : A) (n : Net) → r ≡ ok a → Emits n (f a n) second)
    → Emits net (continue r f net1) (first ++ second)
Emits-continue net (ok a) net1 f first second p q =
    let later = q a net1 refl in
    let none_unsent : p.unsent ≡ [] = given true p.complete refl in
    let all : p.sent ≡ first = sym (append-nil p.sent) ∙ rw (← none_unsent) p.splits in
    record {
      sent = first ++ later.sent;
      unsent = later.unsent;
      splits = append_assoc first later.sent later.unsent ∙ ap (λ s. first ++ s) later.splits;
      outbound_grows =
          later.outbound_grows
          ∙ ap (λ o. o ++ later.sent) p.outbound_grows
          ∙ append_assoc net.outbound p.sent later.sent
          ∙ ap (λ s. net.outbound ++ (s ++ later.sent)) all;
      inbound_kept = later.inbound_kept ∙ p.inbound_kept;
      complete = later.complete;
      faultless = unless (no_faults net) (λ e.
          given (no_faults net1) later.faultless
            (empty-no_faults net1 (given (no_faults net) p.faultless e).1));
    }
Emits-continue net (err e) net1 f first second p q = record {
  sent = p.sent;
  unsent = p.unsent ++ second;
  splits = sym (append_assoc p.sent p.unsent second) ∙ ap (λ s. s ++ second) p.splits;
  outbound_grows = p.outbound_grows;
  inbound_kept = p.inbound_kept;
  complete = inl refl;
  faultless = p.faultless;
}

-- One action after another sends one stream after the other.
pub Emits-bind :
    {A B : Type 0} (net : Net) (m : Exec A) (f : A → Exec B) (first second : Bytes)
    → Emits net (m net) first
    → ((a : A) (n : Net) → (m net).0 ≡ ok a → Emits n (f a n) second)
    → Emits net ((m >>= f) net) (first ++ second)
Emits-bind net m f first second p q = Emits-continue net (m net).0 (m net).1 f first second p q
