-- ===== src/Host/Check/Steps.antt =====
-- src/host.rs: what each step of the check found, where it went on.
use wezterm_attention.Prelude.{
  ℕ, ◌≡◌, refl, ap, subst, Bool, true, false, ◌&&◌, not, String, Option, none, some, arith, nat_eq,
  nat_eq_iff, if◌then◌else◌, str_eq, eq_iff,
}
use wezterm_attention.Protocol.{Result, ok, err}
use wezterm_attention.Wezterm.{ControllingTerminal, ProcessFacts, ProcessRead}
use wezterm_attention.Owner.{ClaimOwner, OwnerRead}
use wezterm_attention.Host.Check.{
  HostRefusal, Verdict, ◌then◌, unless, vouched, refused, owner_named, or_invalid, some_or,
  reader_found, host_found, terminal_found, is_device, is_fingerprint,
}

-- A step that went on.
pub then_elim :
    {A B C : Type 0} (v : Verdict A) (f : A → Verdict B) (b : B)
    → (v then f) ≡ vouched b
    → ((a : A) → v ≡ vouched a → f a ≡ vouched b → C)
    → C
unfolding ◌then◌
then_elim (vouched a) f b h k = k a refl h
then_elim (refused reason) f b h k = absurd cc

pub unless_inv :
    (c : Bool) (reason : HostRefusal) (u : Unit {0}) → unless c reason ≡ vouched u → c ≡ true
unless_inv true reason u h = refl
unless_inv false reason u h = absurd cc

pub owner_named_inv :
    (o : OwnerRead) (a : ClaimOwner) → owner_named o ≡ vouched a → o ≡ OwnerRead.named a
owner_named_inv OwnerRead.unnamed a h = absurd cc
owner_named_inv OwnerRead.in_part a h = absurd cc
owner_named_inv (OwnerRead.named o) a h = cc

pub or_invalid_inv : {A : Type 0} (r : Result A) (a : A) → or_invalid r ≡ vouched a → r ≡ ok a
or_invalid_inv (ok x) a h = cc
or_invalid_inv (err e) a h = absurd cc

pub some_or_inv :
    {A : Type 0} (reason : HostRefusal) (o : Option A) (a : A)
    → some_or reason o ≡ vouched a
    → o ≡ some a
some_or_inv reason none a h = absurd cc
some_or_inv reason (some x) a h = cc

pub reader_found_inv :
    (r : ProcessRead) (facts : ProcessFacts)
    → reader_found r ≡ vouched facts
    → r ≡ ProcessRead.found facts
reader_found_inv (ProcessRead.found f) facts h = cc
reader_found_inv ProcessRead.gone facts h = absurd cc
reader_found_inv ProcessRead.unknown facts h = absurd cc

pub not_exited :
    (f facts : ProcessFacts) (dead : Bool)
    → f.zombie ≡ dead
    → (if dead then refused HostRefusal.host_exited else vouched f) ≡ vouched facts
    → (ProcessRead.found f ≡ ProcessRead.found facts) × (facts.zombie ≡ false)
not_exited f facts true e h = absurd cc
not_exited f facts false e h =
    let same : f ≡ facts = cc in (ap ProcessRead.found same, subst (λ g. g.zombie ≡ false) same e)

pub host_found_inv :
    (r : ProcessRead) (facts : ProcessFacts)
    → host_found r ≡ vouched facts
    → (r ≡ ProcessRead.found facts) × (facts.zombie ≡ false)
host_found_inv (ProcessRead.found f) facts h = not_exited f facts f.zombie refl h
host_found_inv ProcessRead.gone facts h = absurd cc
host_found_inv ProcessRead.unknown facts h = absurd cc

pub terminal_found_inv :
    (t : ControllingTerminal) (n : ℕ)
    → terminal_found t ≡ vouched n
    → t ≡ ControllingTerminal.device n
terminal_found_inv (ControllingTerminal.device m) n h = cc
terminal_found_inv ControllingTerminal.unknown n h = absurd cc
terminal_found_inv ControllingTerminal.absent n h = absurd cc

pub is_device_inv : (o : Option ℕ) (n : ℕ) → is_device o n ≡ true → o ≡ some n
is_device_inv none n h = absurd cc
is_device_inv (some m) n h = ground (arith, nat_eq_iff m n)

pub is_fingerprint_inv : (r : Result String) (s : String) → is_fingerprint r s ≡ true → r ≡ ok s
is_fingerprint_inv (err e) s h = absurd cc
is_fingerprint_inv (ok t) s h = ground (arith, eq_iff t s)

pub and_true : (a b : Bool) → (a && b) ≡ true → (a ≡ true) × (b ≡ true)
and_true a b h = ground arith

pub eq_text : (s t : String) → str_eq s t ≡ true → s ≡ t
eq_text s t h = ground (arith, eq_iff s t)

pub eq_number : (m n : ℕ) → nat_eq m n ≡ true → m ≡ n
eq_number m n h = ground (arith, nat_eq_iff m n)

pub not_inv : (b : Bool) → not b ≡ true → b ≡ false
not_inv b h = ground arith
