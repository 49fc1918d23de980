-- ===== src/Compose/Parse/Totality.antt =====
-- modules/docker_monitor/src/compose_parser.cpp: how long the loops run.
use nazg.Base.{
  ◌∷◌, Bool, false, zero, suc, Bool-cases, inl, inr, ◌∙◌, ap, ℕ, ◌≡◌, refl, false, Option, none,
  some, List, [], Bytes, arith, length, Bool-cases, inl, inr,
}
use native.Mathlib.Nat.{le_refl}
use nazg.Base.Dict.{Dict, insert}
use nazg.Base.Getline.{split_lines}
use nazg.Compose.Lines.{
  each_block, Returns, each_line-le, each_block-Returns, is_skipped_raw, ends_block,
  get_indent_level, is_list_item, extract_key,
}
use nazg.Compose.Parse.{
  ComposeService, ComposeFile, ComposeNetwork, add_network, add_dependency, add_volume,
  add_variable, set_network_field, parse_service_networks, parse_service_key, parse_service,
  parse_network, parse_networks_section, add_service, parse_top, parse_lines, parse, new_file,
  new_service, with_services, with_networks,
}

add_network-Returns :
    (service : ComposeService) (line : Bytes) (rest : List Bytes)
    → Returns (length rest) (add_network service line rest)
add_network-Returns service line rest = elim (Bool-cases (is_list_item line)) [
  | inl item ↦ rw item (omega arith)
  | inr key ↦ rw key (each_line-le _ _ _ _ rest)
]

parse_service_networks-Returns :
    (line : Bytes) (rest : List Bytes) (service : ComposeService)
    → Returns (length rest) (parse_service_networks line rest service)
unfolding parse_service_networks
parse_service_networks-Returns line rest service =
    each_block-Returns _ _ add_network add_network-Returns (length rest) service rest (omega arith)

parse_service_key-Returns :
    (service : ComposeService) (line : Bytes) (rest : List Bytes)
    → Returns (length rest) (parse_service_key service line rest)
unfolding parse_service_key
parse_service_key-Returns service line rest = ground (
  arith,
  each_line-le is_skipped_raw (ends_block (get_indent_level line)) add_dependency service rest,
  each_line-le is_skipped_raw (ends_block (get_indent_level line)) add_volume service rest,
  each_line-le is_skipped_raw (ends_block (get_indent_level line)) add_variable service rest,
  each_line-le is_skipped_raw (ends_block (get_indent_level line))
      (λ (s : ComposeService) (l : Bytes). s) service rest,
  parse_service_networks-Returns line rest service,
)

parse_service-Returns :
    (name line : Bytes) (rest : List Bytes) (service : ComposeService)
    → Returns (length rest) (parse_service name line rest service)
unfolding parse_service
parse_service-Returns name line rest service =
    each_block-Returns _ _ parse_service_key parse_service_key-Returns (length rest) _ rest
      (le_refl _)

parse_network-Returns :
    (networks : Dict ComposeNetwork) (line : Bytes) (rest : List Bytes)
    → Returns (length rest) (parse_network networks line rest)
parse_network-Returns networks line rest = ground (
  arith,
  each_line-le is_skipped_raw (ends_block (get_indent_level line)) set_network_field
      (record { name = extract_key line; driver = []; external = false }) rest,
)

parse_networks_section-Returns :
    (line : Bytes) (rest : List Bytes) (networks : Dict ComposeNetwork)
    → Returns (length rest) (parse_networks_section line rest networks)
unfolding parse_networks_section
parse_networks_section-Returns line rest networks =
    each_block-Returns _ _ parse_network parse_network-Returns (length rest) networks rest
      (le_refl _)

add_service-Returns :
    (services : Dict ComposeService) (line : Bytes) (rest : List Bytes)
    → Returns (length rest) (add_service services line rest)
add_service-Returns services line rest =
    added (parse_service (extract_key line) line rest new_service)
      (parse_service-Returns (extract_key line) line rest new_service)
  where
    added :
        (r : Option (ComposeService × List Bytes))
        → Returns (length rest) r
        → Returns {S = Dict ComposeService} (length rest) (elim r [
          | none ↦ none
          | some (service, rest') ↦ some (insert (extract_key line) service services, rest')
        ])
    added none h = h
    added (some (service, rest')) h = h

with_services-Returns :
    (n : ℕ) (compose : ComposeFile) (r : Option (Dict ComposeService × List Bytes))
    → Returns n r
    → Returns n (with_services compose r)
with_services-Returns n compose none h = h
with_services-Returns n compose (some (services, rest)) h = h

with_networks-Returns :
    (n : ℕ) (compose : ComposeFile) (r : Option (Dict ComposeNetwork × List Bytes))
    → Returns n r
    → Returns n (with_networks compose r)
with_networks-Returns n compose none h = h
with_networks-Returns n compose (some (networks, rest)) h = h

parse_top-Returns :
    (compose : ComposeFile) (line : Bytes) (rest : List Bytes)
    → Returns (length rest) (parse_top compose line rest)
unfolding parse_top
parse_top-Returns compose line rest = ground (
  arith,
  with_services-Returns (length rest) compose _ (
      each_block-Returns is_skipped_raw (ends_block (get_indent_level line)) add_service
        add_service-Returns (length rest) compose.services rest (le_refl _)),
  with_networks-Returns (length rest) compose _
      (parse_networks_section-Returns line rest compose.networks),
  each_line-le is_skipped_raw (ends_block (get_indent_level line))
      (λ (m : Dict Bytes) (l : Bytes). insert (extract_key l) [] m) compose.volumes rest,
)

-- What a loop that stops at no line leaves.
abbrev LeavesNone {ℓ} : {S : Type ℓ} → Option (S × List Bytes) → Type 0
LeavesNone none = Unit
LeavesNone (some (s, rest)) = rest ≡ []

each_block-LeavesNone {ℓ} :
    {S : Type ℓ} (skips : Bytes → Bool) (body : S → Bytes → List Bytes → Option (S × List Bytes))
    (fuel : ℕ) (s : S) (lines : List Bytes)
    → LeavesNone (each_block fuel skips (λ line. false) body s lines)
unfolding each_block
each_block-LeavesNone skips body fuel s [] = refl
each_block-LeavesNone skips body zero s (line ∷ rest) = tt
each_block-LeavesNone {S = S} skips body (suc fuel) s (line ∷ rest) =
    elim (Bool-cases (skips line)) [
      | inl skipped ↦ rw (skipped, each_block) (each_block-LeavesNone skips body fuel s rest)
      | inr read ↦
          rw (read, each_block)
            (later (body s line rest) (λ s' rest'. each_block-LeavesNone skips body fuel s' rest'))
    ]
  where
    later :
        (r : Option (S × List Bytes))
        → ((s' : S) (rest' : List Bytes)
            → LeavesNone (each_block fuel skips (λ line. false) body s' rest'))
        → LeavesNone (elim r [
          | none ↦ none
          | some (s', rest') ↦ each_block fuel skips (λ line. false) body s' rest'
        ])
    later none ih = tt
    later (some (s', rest')) ih = ih s' rest'

-- `parse` ends on every text with a compose file and reads all of its lines: the fuel of all its
-- loops is enough.
pub parse_total :
    (yaml_content : Bytes) → (compose : ComposeFile) × (parse yaml_content ≡ some (compose, []))
unfolding parse parse_lines
parse_total yaml_content =
    result (parse yaml_content) refl
      (each_block-Returns _ _ parse_top parse_top-Returns (length (split_lines yaml_content))
        new_file (split_lines yaml_content) (le_refl _))
      (each_block-LeavesNone _ parse_top (length (split_lines yaml_content)) new_file
        (split_lines yaml_content))
  where
    result :
        (r : Option (ComposeFile × List Bytes))
        → parse yaml_content ≡ r
        → Returns (length (split_lines yaml_content)) r
        → LeavesNone r
        → (compose : ComposeFile) × (parse yaml_content ≡ some (compose, []))
    result none e h k = absurd h
    result (some (compose, rest)) e h k = (compose, e ∙ ap (λ ls. some (compose, ls)) k)
