-- ===== src/Compose/Dependencies/Reasons.antt =====
-- modules/docker_monitor/src/compose_parser.cpp, `extract_dependencies`: the reasons for what it finds.
use nazg.Base.{
  ℕ, zero, suc, ◌≡◌, ◌≢◌, ◌↔◌, inl, inr, refl, sym, subst, Bool, true, false, List, [], ◌∷◌, ◌++◌,
  Bytes, codes, ◌=ᵇ◌, =ᵇ_iff, take, drop, map, arith, ap, Bool-cases, if◌then◌else◌,
}
use mathlib.Core.List.Memᴰ.{Memᴰ, head, tail}
use nazg.Base.Dict.{Dict}
use nazg.Base.Members.{
  gather, contains_bytes, single, mem-single, mem-append, mem_left, mem_right, gather-mem,
  mem-gather, contains_bytes→mem, mem→contains_bytes,
}
use nazg.Compose.Parse.{ComposeService, ComposeFile}
use nazg.Compose.Dependencies.{
  DetectedDependency, declared_dependency, mode_dependency, network_dependency, volume_dependency,
  volume_name, through_mode, on_network, same_volume, on_volume, of_service, extract_dependencies,
}

-- Why a service depends on another: it names it, runs in its network, or shares a network or the
-- name of a volume with it.
pub data Reason (services : Dict ComposeService) (d : DetectedDependency) : Type 0 where
  declares :
      (name : Bytes) (s : ComposeService)
      → Memᴰ (name, s) services
      → (dep : Bytes) → Memᴰ dep s.depends_on
      → d ≡ declared_dependency name dep
      → Reason services d
  joins :
      (name : Bytes) (s : ComposeService)
      → Memᴰ (name, s) services
      → (dep : Bytes) → s.network_mode ≡ codes "service:" ++ dep
      → d ≡ mode_dependency name dep
      → Reason services d
  meets :
      (name : Bytes) (s : ComposeService)
      → Memᴰ (name, s) services
      → (other : Bytes) (t : ComposeService) → Memᴰ (other, t) services
      → other ≢ name
      → (network : Bytes) → Memᴰ network s.networks
      → Memᴰ network t.networks
      → d ≡ network_dependency name s network other
      → Reason services d
  shares :
      (name : Bytes) (s : ComposeService)
      → Memᴰ (name, s) services
      → (other : Bytes) (t : ComposeService) → Memᴰ (other, t) services
      → other ≢ name
      → (volume other_volume : Bytes) → Memᴰ volume s.volumes
      → Memᴰ other_volume t.volumes
      → volume_name volume ≡ volume_name other_volume
      → d ≡ volume_dependency name (volume_name volume) other
      → Reason services d

mem-map {ℓ κ} :
    {A : Type ℓ} {B : Type κ} (f : A → B) (b : B) (xs : List A)
    → Memᴰ b (map f xs)
    → (a : A) × Memᴰ a xs × (b ≡ f a)
mem-map f b [] m = elim m [ ]
mem-map f b (x ∷ xs) (head e) = (x, head refl, e)
mem-map f b (x ∷ xs) (tail m) = let (a, n, e) = mem-map f b xs m in (a, tail n, e)

map-mem {ℓ κ} :
    {A : Type ℓ} {B : Type κ} (f : A → B) (a : A) (xs : List A) → Memᴰ a xs → Memᴰ (f a) (map f xs)
map-mem f a [] m = elim m [ ]
map-mem f a (x ∷ xs) (head e) = head (ap f e)
map-mem f a (x ∷ xs) (tail m) = tail (map-mem f a xs m)

take-drop : (n : ℕ) (s : Bytes) → take n s ++ drop n s ≡ s
take-drop zero s = refl
take-drop (suc n) [] = refl
take-drop (suc n) (c ∷ s) = rw (take-drop n s)

-- A member of a list under a test: the test holds.
mem-if {ℓ} :
    {A : Type ℓ} (a : A) (b : Bool) (xs : List A)
    → Memᴰ a (if b then xs else [])
    → (b ≡ true) × Memᴰ a xs
mem-if a true xs m = (refl, m)
mem-if a false xs m = elim m [ ]

mem-unless {ℓ} :
    {A : Type ℓ} (a : A) (b : Bool) (xs : List A)
    → Memᴰ a (if b then [] else xs)
    → (b ≡ false) × Memᴰ a xs
mem-unless a true xs m = elim m [ ]
mem-unless a false xs m = (refl, m)

other_ne : (s t : Bytes) → (s =ᵇ t) ≡ false → s ≢ t
other_ne s t h e = ground (arith, =ᵇ_iff s t)

module _ (services : Dict ComposeService) (d : DetectedDependency) (name : Bytes)
    (s : ComposeService) (here : Memᴰ (name, s) services) where
  from_declared : Memᴰ d (map (declared_dependency name) s.depends_on) → Reason services d
  from_declared m =
      let (dep, n, e) = mem-map (declared_dependency name) d s.depends_on m in
      declares name s here dep n e

  from_mode : Memᴰ d (through_mode name s.network_mode) → Reason services d
  from_mode m =
      let (starts, n) = mem-if d (take 8 s.network_mode =ᵇ codes "service:") _ m in
      joins name s here (drop 8 s.network_mode)
        (subst (λ p. s.network_mode ≡ p ++ drop 8 s.network_mode)
          ((=ᵇ_iff (take 8 s.network_mode) (codes "service:")).0 starts)
          (sym (take-drop 8 s.network_mode)))
        (mem-single d _ n)

  from_network :
      Memᴰ d (gather (λ network. gather (on_network name s network) services) s.networks)
      → Reason services d
  from_network m =
      let (network, on, m') =
        mem-gather (λ network. gather (on_network name s network) services) d s.networks m in
      let ((other, t), there, m'') = mem-gather (on_network name s network) d services m' in
      let (ne, m3) = mem-unless d (other =ᵇ name) _ m'' in
      let (both, m4) = mem-if d (contains_bytes network t.networks) _ m3 in
      meets name s here other t there (other_ne other name ne) network on
        (contains_bytes→mem network t.networks both) (mem-single d _ m4)

  from_volume :
      Memᴰ d (gather (λ volume. gather (on_volume name volume) services) s.volumes)
      → Reason services d
  from_volume m =
      let (volume, on, m') =
        mem-gather (λ volume. gather (on_volume name volume) services) d s.volumes m in
      let ((other, t), there, m'') = mem-gather (on_volume name volume) d services m' in
      let (ne, m3) = mem-unless d (other =ᵇ name) _ m'' in
      let (other_volume, n, m4) = mem-gather (same_volume name volume other) d t.volumes m3 in
      let (same, m5) = mem-if d (volume_name volume =ᵇ volume_name other_volume) _ m4 in
      shares name s here other t there (other_ne other name ne) volume other_volume on n
        ((=ᵇ_iff (volume_name volume) (volume_name other_volume)).0 same) (mem-single d _ m5)

  abbrev names : List DetectedDependency
  names = map (declared_dependency name) s.depends_on

  abbrev mode : List DetectedDependency
  mode = through_mode name s.network_mode

  abbrev meeting : List DetectedDependency
  meeting = gather (λ network. gather (on_network name s network) services) s.networks

  abbrev sharing : List DetectedDependency
  sharing = gather (λ volume. gather (on_volume name volume) services) s.volumes

  from_service : Memᴰ d (of_service services (name, s)) → Reason services d
  from_service m = elim (mem-append d (names ++ mode ++ meeting) sharing m) [
    | inr e ↦ from_volume e
    | inl m' ↦ elim (mem-append d (names ++ mode) meeting m') [
      | inr c ↦ from_network c
      | inl m'' ↦ elim (mem-append d names mode m'') [
        | inr b ↦ from_mode b
        | inl a ↦ from_declared a
      ]
    ]
  ]

  to_names : Memᴰ d names → Memᴰ d (of_service services (name, s))
  to_names m =
      mem_left d (names ++ mode ++ meeting) sharing
        (mem_left d (names ++ mode) meeting (mem_left d names mode m))

  to_mode : Memᴰ d mode → Memᴰ d (of_service services (name, s))
  to_mode m =
      mem_left d (names ++ mode ++ meeting) sharing
        (mem_left d (names ++ mode) meeting (mem_right d names mode m))

  to_meeting : Memᴰ d meeting → Memᴰ d (of_service services (name, s))
  to_meeting m =
      mem_left d (names ++ mode ++ meeting) sharing (mem_right d (names ++ mode) meeting m)

  to_sharing : Memᴰ d sharing → Memᴰ d (of_service services (name, s))
  to_sharing m = mem_right d (names ++ mode ++ meeting) sharing m

  to_all : Memᴰ d (of_service services (name, s)) → Memᴰ d (gather (of_service services) services)
  to_all m = gather-mem (of_service services) (name, s) d services here m

if-mem {ℓ} :
    {A : Type ℓ} (a : A) (b : Bool) (xs : List A)
    → b ≡ true
    → Memᴰ a xs
    → Memᴰ a (if b then xs else [])
if-mem a true xs h m = m
if-mem a false xs h m = absurd (cc h)

unless-mem {ℓ} :
    {A : Type ℓ} (a : A) (b : Bool) (xs : List A)
    → b ≡ false
    → Memᴰ a xs
    → Memᴰ a (if b then [] else xs)
unless-mem a true xs h m = absurd (cc h)
unless-mem a false xs h m = m

ne_other : (s t : Bytes) → s ≢ t → (s =ᵇ t) ≡ false
ne_other s t h = elim (Bool-cases (s =ᵇ t)) [ inl e ↦ absurd (h ((=ᵇ_iff s t).0 e)) | inr e ↦ e ]

through_mode-service :
    (name mode dep : Bytes)
    → mode ≡ codes "service:" ++ dep
    → through_mode name mode ≡ single (mode_dependency name dep)
through_mode-service name mode dep e = rw e refl

from_reason :
    (services : Dict ComposeService) (d : DetectedDependency)
    → Reason services d
    → Memᴰ d (gather (of_service services) services)
from_reason services d (declares name s here dep n e) =
    to_all services d name s here (
      to_names services d name s here
        (rw e (map-mem (declared_dependency name) dep s.depends_on n)))
from_reason services d (joins name s here dep starts e) = to_all services d name s here (
    to_mode services d name s here
      (rw (through_mode-service name s.network_mode dep starts) (head e)))
from_reason services d (meets name s here other t there ne network n n' e) =
    to_all services d name s here (
      to_meeting services d name s here (
        gather-mem (λ network. gather (on_network name s network) services) network d s.networks n
          (gather-mem (on_network name s network) (other, t) d services there
            (unless-mem d (other =ᵇ name) _ (ne_other other name ne) (
              if-mem d (contains_bytes network t.networks) _
                (mem→contains_bytes network t.networks n') (head e))))))
from_reason services d (shares name s here other t there ne volume other_volume n n' same e) =
    to_all services d name s here (
      to_sharing services d name s here (
        gather-mem (λ volume. gather (on_volume name volume) services) volume d s.volumes n
          (gather-mem (on_volume name volume) (other, t) d services there
            (unless-mem d (other =ᵇ name) _ (ne_other other name ne) (
              gather-mem (same_volume name volume other) other_volume d t.volumes n' (
                if-mem d (volume_name volume =ᵇ volume_name other_volume) _
                  ((=ᵇ_iff (volume_name volume) (volume_name other_volume)).1 same) (head e)))))))

-- What `extract_dependencies` returns are exactly the dependencies with a reason in the services.
pub extract_dependencies-Reason :
    (compose : ComposeFile) (d : DetectedDependency)
    → Memᴰ d (extract_dependencies compose) ↔ Reason compose.services d
unfolding extract_dependencies
extract_dependencies-Reason compose d = (found, from_reason compose.services d)
  where
    found :
        Memᴰ d (gather (of_service compose.services) compose.services) → Reason compose.services d
    found m =
        let ((name, s), here, n) = mem-gather (of_service compose.services) d compose.services m in
        from_service compose.services d name s here n
