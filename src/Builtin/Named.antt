-- ===== src/Builtin/Named.antt =====
-- The loops of the built-in plugins append relationships that name the entity beside them.
use sleuthgraph_api.Base.{
  ℕ, suc, ◌≡◌, refl, Bool, true, false, Option, none, some, List, [], ◌∷◌, ◌++◌, All, All-append,
  All-weaken, length, leb, Bool-cases, inl, inr,
}
use sleuthgraph_api.Base.Text.{Text, codes}
use sleuthgraph_api.Errors.{Result, ok, err, ◌>>=◌}
use sleuthgraph_api.Errors.Every.{Every, Every-if, Every-chain}
use sleuthgraph_api.Graph.Json.{Json, Fields, end, null, boolean, number, str, arr, obj}
use sleuthgraph_api.Entities.{EntityType}
use sleuthgraph_api.Relationships.{RelationshipType}
use sleuthgraph_api.Plugins.Base.{EntityProposal}
use sleuthgraph_api.Builtin.Web.{Web}
use sleuthgraph_api.Builtin.Values.{dict}
use sleuthgraph_api.Builtin.Proposing.{Link, entity_proposal, ref_to, to_input}
use sleuthgraph_api.Builtin.Endpoints.{
  Known, Named, Known-more, Known-named, is_named, to_input-Named, entity_proposal-ref,
}
use sleuthgraph_api.Builtin.CrtSh
use sleuthgraph_api.Builtin.DnsWhois
use sleuthgraph_api.Builtin.GithubPublic
use sleuthgraph_api.Builtin.Shodan
use sleuthgraph_api.Builtin.Shodan.{Hosts}
use sleuthgraph_api.Builtin.Wayback
use sleuthgraph_api.Builtin.Wayback.{Snapshot}

abbrev pub AllNamed : List Link → Type 0
AllNamed = All Named

-- One link before the links of the rest of a loop.
cons-Named :
    (link : Result Link) (rest : Result (List Link))
    → Every Named link
    → Every AllNamed rest
    → Every AllNamed (do l ← link; ls ← rest; ok (l ∷ ls))
cons-Named (ok l) (ok ls) h k = record { holds = (h.holds, k.holds) }
cons-Named (ok l) (err e) h k = record { holds = tt }
cons-Named (err e) rest h k = record { holds = tt }

module _ (web : Web) where
  -- The comprehensions of crt.sh count alike.
  pub comprehensions-Known :
      (i : ℕ) (names : List Text)
      → Every
          (λ es. All (Known es) (CrtSh.propose_relationships web i (length es)))
          (CrtSh.propose_entities web i names)
  unfolding CrtSh.propose_entities CrtSh.propose_relationships is_named
  comprehensions-Known i [] = record { holds = tt }
  comprehensions-Known i (name ∷ names) =
      let P : List EntityProposal → Type 0 =
        λ es. All (Known es) (CrtSh.propose_relationships web i (length es)) in
      let ref : Text = codes "sub-" ++ web.str_nat i in
      let via : Fields = dict ((codes "discovered_via", str (codes "crt.sh")) ∷ []) in
      Every-chain P (λ e. is_named e (ref_to ref) ≡ true)
        (entity_proposal ref EntityType.domain name via 80) _
        (entity_proposal-ref ref EntityType.domain name via 80)
        λ e named.
          Every-chain P (λ es. All (Known es) (CrtSh.propose_relationships web (suc i) (length es)))
            (CrtSh.propose_entities web (suc i) names) (λ es. ok (e ∷ es))
            (comprehensions-Known (suc i) names)
            λ es known. record {
              holds = (
                Known-named e es (to_input ref RelationshipType.subdomain_of end 90) named refl,
                All-weaken (Known es) (Known (e ∷ es))
                    (CrtSh.propose_relationships web (suc i) (length es)) (Known-more e es) known,
              );
            }

  record_link-Named :
      (ref : Text) (type : EntityType) (label : Text) (rel_type : RelationshipType)
      (about : List (Text × Json)) (confidence : ℕ)
      → Every Named (DnsWhois.record_link web ref type label rel_type about confidence)
  unfolding DnsWhois.record_link is_named
  record_link-Named ref type label rel_type about confidence = search to_input-Named

  pub address_links-Named :
      (prefix rdtype : Text) (i : ℕ) (ips : List Text)
      → Every AllNamed (DnsWhois.address_links web prefix rdtype i ips)
  unfolding DnsWhois.address_links
  address_links-Named prefix rdtype i [] = record { holds = tt }
  address_links-Named prefix rdtype i (ip ∷ ips) =
      search (cons-Named, record_link-Named, address_links-Named prefix rdtype (suc i) ips)

  pub server_links-Named :
      (i : ℕ) (servers : List Text) → Every AllNamed (DnsWhois.server_links web i servers)
  unfolding DnsWhois.server_links
  server_links-Named i [] = record { holds = tt }
  server_links-Named i (ns ∷ servers) =
      search (cons-Named, record_link-Named, server_links-Named (suc i) servers)

  pub mail_links-Named :
      (i : ℕ) (hosts : List (ℕ × Text)) → Every AllNamed (DnsWhois.mail_links web i hosts)
  unfolding DnsWhois.mail_links
  mail_links-Named i [] = record { holds = tt }
  mail_links-Named i ((preference, host) ∷ hosts) =
      search (cons-Named, record_link-Named, mail_links-Named (suc i) hosts)

  snapshot_link-Named : (i : ℕ) (s : Snapshot) → Every Named (Wayback.snapshot_link web i s)
  unfolding Wayback.snapshot_link is_named
  snapshot_link-Named i s = search to_input-Named

  abbrev pub SnapshotsNamed : List Link × ℕ → Type 0
  SnapshotsNamed proposed = AllNamed proposed.0

  pub snapshots-Named :
      (i : ℕ) (ss : List Snapshot) → Every SnapshotsNamed (Wayback.propose web i ss)
  unfolding Wayback.propose
  snapshots-Named i [] = record { holds = tt }
  snapshots-Named i (s ∷ ss) =
      Every-if SnapshotsNamed _ _ _
        (Every-chain SnapshotsNamed SnapshotsNamed (Wayback.propose web (suc i) ss) _
          (snapshots-Named (suc i) ss) λ rest h. record { holds = h })
        (Every-chain SnapshotsNamed Named (Wayback.snapshot_link web i s) _
          (snapshot_link-Named i s)
          λ link named.
            Every-chain SnapshotsNamed SnapshotsNamed (Wayback.propose web (suc i) ss) _
              (snapshots-Named (suc i) ss) λ rest h. record { holds = (named, h) })

  host_link-Named :
      (confidence count : ℕ) (name : Text)
      → Every Named (Shodan.host_link web confidence count name)
  unfolding Shodan.host_link is_named
  host_link-Named confidence count name = search to_input-Named

  abbrev pub HostsNamed : Hosts → Type 0
  HostsNamed hosts = AllNamed hosts.links

  host_step-Named :
      (confidence count : ℕ) (seen : List Text) (name : Option Text)
      (rest : ℕ → List Text → Result Hosts)
      → ((n : ℕ) (known : List Text) → Every HostsNamed (rest n known))
      → Every HostsNamed (Shodan.host_step web confidence count seen name rest)
  unfolding Shodan.host_step
  host_step-Named confidence count seen none rest h = h count seen
  host_step-Named confidence count seen (some name) rest h =
      Every-chain HostsNamed Named (Shodan.host_link web confidence count name) _
        (host_link-Named confidence count name)
        λ link named.
          Every-chain HostsNamed HostsNamed (rest (suc count) (name ∷ seen)) _
            (h (suc count) (name ∷ seen)) λ more k. record { holds = (named, k) }

  pub scan_hosts-Named :
      (confidence : ℕ) (values : List Json) (count : ℕ) (seen : List Text)
      → Every HostsNamed (Shodan.scan_hosts web confidence values count seen)
  unfolding Shodan.scan_hosts
  scan_hosts-Named confidence [] count seen = record { holds = tt }
  scan_hosts-Named confidence (value ∷ values) count seen =
      elim (Bool-cases (leb Shodan.max_entities count)) [
        | inl full ↦ rw full (record { holds = tt })
        | inr room ↦
            rw room (host_step-Named confidence count seen _ _ (scan_hosts-Named confidence values))
      ]

  profile_link-Named :
      (i : ℕ) (login : Text) (about : List (Text × Json)) (confidence : ℕ)
      → Every Named (GithubPublic.profile_link web i login about confidence)
  unfolding GithubPublic.profile_link
  profile_link-Named i login about confidence = search to_input-Named

  -- The one link of a profile.
  only-Named : (link : Result Link) → Every Named link → Every AllNamed (do l ← link; ok (l ∷ []))
  only-Named (ok l) h = record { holds = (h.holds, tt) }
  only-Named (err e) h = record { holds = tt }

  links_of :
      (login : Option Text) (make : Text → Result (List Link))
      → ((t : Text) → Every AllNamed (make t))
      → Every AllNamed (elim login [ none ↦ ok [] | some t ↦ make t ])
  links_of none make h = record { holds = tt }
  links_of (some t) make h = h t

  found_links-Named : (i : ℕ) (item : Json) → Every AllNamed (GithubPublic.found_links web i item)
  unfolding GithubPublic.found_links
  found_links-Named i (obj fs) =
      links_of (GithubPublic.login_of fs) _ λ t. search (only-Named, profile_link-Named)
  found_links-Named i null = record { holds = tt }
  found_links-Named i (boolean b) = record { holds = tt }
  found_links-Named i (number n) = record { holds = tt }
  found_links-Named i (str t) = record { holds = tt }
  found_links-Named i (arr xs) = record { holds = tt }

  search_links-Named :
      (i : ℕ) (items : List Json) → Every AllNamed (GithubPublic.search_links web i items)
  unfolding GithubPublic.search_links
  search_links-Named i [] = record { holds = tt }
  search_links-Named i (item ∷ items) =
      Every-chain AllNamed AllNamed (GithubPublic.found_links web i item) _
        (found_links-Named i item)
        λ found h.
          Every-chain AllNamed AllNamed (GithubPublic.search_links web (suc i) items) _
            (search_links-Named (suc i) items)
            λ rest k. record { holds = All-append Named found rest h k }

  user_links-Named : (value : Json) → Every AllNamed (GithubPublic.user_links web value)
  unfolding GithubPublic.user_links
  user_links-Named (obj fs) =
      links_of (GithubPublic.login_of fs) _ λ t. search (only-Named, profile_link-Named)
  user_links-Named null = record { holds = tt }
  user_links-Named (boolean b) = record { holds = tt }
  user_links-Named (number n) = record { holds = tt }
  user_links-Named (str t) = record { holds = tt }
  user_links-Named (arr xs) = record { holds = tt }

  pub github-Named :
      (is_email : Bool) (value : Json) → Every AllNamed (GithubPublic.propose web is_email value)
  unfolding GithubPublic.propose
  github-Named true (obj fs) = search search_links-Named
  github-Named true null = record { holds = tt }
  github-Named true (boolean b) = record { holds = tt }
  github-Named true (number n) = record { holds = tt }
  github-Named true (str t) = record { holds = tt }
  github-Named true (arr xs) = record { holds = tt }
  github-Named false value = user_links-Named value
