-- ===== src/Server/Life/Keys.antt =====
-- The keys by which `buildListenRegs` of server/server.go tells surfaces apart, and what they tell.
use argos.Base.{
  Option, ◌⊎◌, ℕ, ◌+◌, ◌<◌, ◌==◌, ==_iff, count, Bool-cases, some, sym, ap, ◌∙◌, ◌≡◌, true, List,
  [], ◌∷◌, ◌++◌, arith, inl, inr,
}
use mathlib.Core.List.{append_assoc}
use argos.Base.Bytes.{Bytes, ◌===◌, ===_iff, split_last, split_last-append}
use argos.Descriptor.{has_name}
use argos.Options.Services.{ServiceOptions, ServiceListenPlan, service_listen_key}
use argos.Server.Life.{ListenReg}
use argos.Server.Life.Plans.{reg_key, reg_keys, plan_key}

-- The surface of the key that a plan has, as the surfaces are told apart: it has the plan's address,
-- transport and codec, unless a name of a transport or a codec has a bar in it, as the key has
-- between its parts.
abbrev pub bars : ServiceOptions → ℕ
bars sc = count b'|' sc.transport + count b'|' sc.codec

abbrev pub IsSame : ListenReg → ServiceListenPlan → Type 0
IsSame r p =
    (r.listen_address ≡ p.address)
    × (r.stack.transport ≡ p.stack.transport)
    × (r.stack.codec ≡ p.stack.codec)

abbrev pub IsSurface : ServiceListenPlan → ListenReg → Type 0
IsSurface p r = (reg_key r ≡ plan_key p) × (IsSame r p ⊎ (0 < bars r.stack + bars p.stack))

abbrev pub Exists : (ListenReg → Type 0) → List ListenReg → Type 0
Exists P [] = ⊥
Exists P (r ∷ rs) = P r ⊎ Exists P rs

key_split :
    (addr : Bytes) (sc : ServiceOptions)
    → bars sc ≡ 0
    → split_last b'|' (service_listen_key addr sc) ≡ some (addr ++ (b'|' ∷ sc.transport), sc.codec)
key_split addr sc h =
    ap (split_last b'|') (sym (append_assoc addr (b'|' ∷ sc.transport) (b'|' ∷ sc.codec)))
    ∙ split_last-append b'|' (addr ++ (b'|' ∷ sc.transport)) sc.codec (omega (arith, h))

some_pair :
    (a b c d : Bytes)
    → ◌≡◌ {A = Option (Bytes × Bytes)} (some (a, b)) (some (c, d))
    → (a ≡ c) × (b ≡ d)
some_pair a b c d h = (ground (arith, h), ground (arith, h))

service_listen_key-IsSame :
    (r : ListenReg) (p : ServiceListenPlan)
    → reg_key r ≡ plan_key p
    → bars r.stack + bars p.stack ≡ 0
    → IsSame r p
service_listen_key-IsSame r p e h =
    let no_r : bars r.stack ≡ 0 = omega (arith, h) in
    let no_p : bars p.stack ≡ 0 = omega (arith, h) in
    let ends = some_pair _ _ _ _ (
      sym (key_split r.listen_address r.stack no_r)
      ∙ (ap (split_last b'|') e ∙ key_split p.address p.stack no_p)) in
    let starts = some_pair _ _ _ _ (
      sym (split_last-append b'|' r.listen_address r.stack.transport (omega (arith, no_r)))
      ∙ (ap (split_last b'|') ends.0
          ∙ split_last-append b'|' p.address p.stack.transport (omega (arith, no_p)))) in
    (starts.0, starts.1, ends.1)

key-IsSurface : (r : ListenReg) (p : ServiceListenPlan) → reg_key r ≡ plan_key p → IsSurface p r
key-IsSurface r p e = elim (Bool-cases (bars r.stack + bars p.stack == 0)) [
  | inl z ↦ (e, inl (service_listen_key-IsSame r p e ((==_iff _ 0).0 z)))
  | inr n ↦ (e, inr (ground (arith, n)))
]

pub found-IsSurface :
    (p : ServiceListenPlan) (rs : List ListenReg)
    → has_name (plan_key p) (reg_keys rs) ≡ true
    → Exists (IsSurface p) rs
found-IsSurface p [] h = cc
found-IsSurface p (r ∷ rs) h = elim (Bool-cases (reg_key r === plan_key p)) [
  | inl y ↦ inl (key-IsSurface r p ((===_iff (reg_key r) (plan_key p)).0 y))
  | inr n ↦ inr (found-IsSurface p rs (ground (arith, h, n)))
]
