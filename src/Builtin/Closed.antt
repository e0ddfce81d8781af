-- ===== src/Builtin/Closed.antt =====
-- The results of the built-in plugins, whatever they are answered, point at known entities only.
use sleuthgraph_api.Base.{ℕ, Bool, Option, none, some, List, ◌++◌, All, All-append, length}
use sleuthgraph_api.Base.Text.{Text}
use sleuthgraph_api.Errors.{Result, ok, ◌>>=◌}
use sleuthgraph_api.Graph.Json.{Json}
use sleuthgraph_api.Model.{Entity}
use sleuthgraph_api.Plugins.Base.{QueryResult, EvidenceProposal, EntityProposal}
use sleuthgraph_api.Builtin.Web.{Web}
use sleuthgraph_api.Builtin.Proposing.{Link, linked, proposed, nothing}
use sleuthgraph_api.Errors.Every.{Every, Every-ok, Every-if, Every-bind, Every-chain}
use sleuthgraph_api.Builtin.Endpoints.{Known, Named, IsClosed, linked-IsClosed}
use sleuthgraph_api.Builtin.Named.{
  AllNamed, SnapshotsNamed, HostsNamed, comprehensions-Known, address_links-Named,
  server_links-Named, mail_links-Named, snapshots-Named, github-Named, scan_hosts-Named,
}
use sleuthgraph_api.Builtin.Judged.{
  ScanNamed, Names, scan_values-Named, judge_address-Names, judge_subdomain-Names,
  judge_alt_name-Names,
}
use sleuthgraph_api.Builtin.Shipped.{plugins}
use sleuthgraph_api.Builtin.CrtSh
use sleuthgraph_api.Builtin.DnsWhois
use sleuthgraph_api.Builtin.Wayback
use sleuthgraph_api.Builtin.Wayback.{Snapshot}
use sleuthgraph_api.Builtin.OpenCorporates
use sleuthgraph_api.Builtin.GithubPublic
use sleuthgraph_api.Builtin.Searches
use sleuthgraph_api.Builtin.Urlhaus
use sleuthgraph_api.Builtin.VirusTotal
use sleuthgraph_api.Builtin.VirusTotal.{Scan, Verdict}
use sleuthgraph_api.Builtin.Shodan
use sleuthgraph_api.Builtin.Shodan.{Hosts}
use sleuthgraph_api.Builtin.Hibp

-- The call returns a closed result or raises.
abbrev pub Closed : Result QueryResult → Type 0
Closed = Every IsClosed

nothing-IsClosed : IsClosed nothing
nothing-IsClosed = tt

one_end :
    (links : List Link) (evidence : EvidenceProposal)
    → AllNamed links
    → Closed (ok (linked links evidence))
one_end links evidence h = record { holds = linked-IsClosed links evidence h }

two_end :
    (xs ys : List Link) (evidence : EvidenceProposal)
    → AllNamed xs
    → AllNamed ys
    → Closed (ok (linked (xs ++ ys) evidence))
two_end xs ys evidence h k = one_end (xs ++ ys) evidence (All-append Named xs ys h k)

four_end :
    (a b c d : List Link) (evidence : EvidenceProposal)
    → AllNamed a
    → AllNamed b
    → AllNamed c
    → AllNamed d
    → Closed (ok (linked (a ++ b ++ c ++ d) evidence))
four_end a b c d evidence ha hb hc hd = one_end (a ++ b ++ c ++ d) evidence (
    All-append Named (a ++ b ++ c) d (All-append Named (a ++ b) c (All-append Named a b ha hb) hc)
      hd)

module _ (web : Web) where
  entities_bind :
      (names : List Text) (f : List EntityProposal → Result QueryResult)
      → ((es : List EntityProposal)
          → All (Known es) (CrtSh.propose_relationships web 0 (length es))
          → Closed (f es))
      → Closed (CrtSh.propose_entities web 0 names >>= f)
  entities_bind names f h =
      Every-chain IsClosed _ (CrtSh.propose_entities web 0 names) f
        (comprehensions-Known web 0 names) h

  entities_end :
      (es : List EntityProposal) (evidence : EvidenceProposal)
      → All (Known es) (CrtSh.propose_relationships web 0 (length es))
      → Closed (ok (proposed es (CrtSh.propose_relationships web 0 (length es)) evidence))
  entities_end es evidence h = record { holds = h }

  addresses_bind :
      (prefix rdtype : Text) (ips : List Text) (f : List Link → Result QueryResult)
      → ((links : List Link) → AllNamed links → Closed (f links))
      → Closed (DnsWhois.address_links web prefix rdtype 0 ips >>= f)
  addresses_bind prefix rdtype ips f h =
      Every-chain IsClosed AllNamed (DnsWhois.address_links web prefix rdtype 0 ips) f
        (address_links-Named web prefix rdtype 0 ips) h

  servers_bind :
      (servers : List Text) (f : List Link → Result QueryResult)
      → ((links : List Link) → AllNamed links → Closed (f links))
      → Closed (DnsWhois.server_links web 0 servers >>= f)
  servers_bind servers f h =
      Every-chain IsClosed AllNamed (DnsWhois.server_links web 0 servers) f
        (server_links-Named web 0 servers) h

  mails_bind :
      (hosts : List (ℕ × Text)) (f : List Link → Result QueryResult)
      → ((links : List Link) → AllNamed links → Closed (f links))
      → Closed (DnsWhois.mail_links web 0 hosts >>= f)
  mails_bind hosts f h =
      Every-chain IsClosed AllNamed (DnsWhois.mail_links web 0 hosts) f
        (mail_links-Named web 0 hosts) h

  snapshots_bind :
      (ss : List Snapshot) (f : List Link × ℕ → Result QueryResult)
      → ((made : List Link × ℕ) → AllNamed made.0 → Closed (f made))
      → Closed (Wayback.propose web 0 ss >>= f)
  snapshots_bind ss f h =
      Every-chain IsClosed (SnapshotsNamed web) (Wayback.propose web 0 ss) f
        (snapshots-Named web 0 ss) h

  profiles_bind :
      (is_email : Bool) (value : Json) (f : List Link → Result QueryResult)
      → ((links : List Link) → AllNamed links → Closed (f links))
      → Closed (GithubPublic.propose web is_email value >>= f)
  profiles_bind is_email value f h =
      Every-chain IsClosed AllNamed (GithubPublic.propose web is_email value) f
        (github-Named web is_email value) h

  hosts_bind :
      (confidence : ℕ) (values : List Json) (count : ℕ) (seen : List Text)
      (f : Hosts → Result QueryResult)
      → ((hosts : Hosts) → AllNamed hosts.links → Closed (f hosts))
      → Closed (Shodan.scan_hosts web confidence values count seen >>= f)
  hosts_bind confidence values count seen f h =
      Every-chain IsClosed (HostsNamed web) (Shodan.scan_hosts web confidence values count seen) f
        (scan_hosts-Named web confidence values count seen) h

  scan_bind :
      (judge : Json → Verdict) (values : List Json) (count : ℕ) (f : Scan → Result QueryResult)
      → ((value : Json) → Names web (judge value))
      → ((scan : Scan) → AllNamed scan.links → Closed (f scan))
      → Closed (VirusTotal.scan_values judge values count >>= f)
  scan_bind judge values count f names h =
      Every-chain IsClosed (ScanNamed web) (VirusTotal.scan_values judge values count) f
        (scan_values-Named web judge values count names) h

ruleset closing = (
  Every-if, Every-bind, Every-ok, one_end, two_end, four_end, entities_bind, entities_end,
  addresses_bind, servers_bind, mails_bind, snapshots_bind, profiles_bind, hosts_bind, scan_bind,
  judge_address-Names, judge_subdomain-Names, judge_alt_name-Names, nothing-IsClosed,
)

module _ (web : Web) (input : Entity) (key : Option Text) where
  crtsh-Closed : Closed (CrtSh.query web input key)
  unfolding CrtSh.query CrtSh.lookup
  crtsh-Closed = search closing depth 20 fits 2000

  dns-Closed : Closed (DnsWhois.query web input key)
  unfolding DnsWhois.query DnsWhois.lookup
  dns-Closed = search closing depth 20 fits 2000

  wayback-Closed : Closed (Wayback.query web input key)
  unfolding Wayback.query Wayback.lookup
  wayback-Closed = search closing depth 20 fits 2000

  opencorporates-Closed : Closed (OpenCorporates.query web input key)
  unfolding OpenCorporates.query OpenCorporates.lookup
  opencorporates-Closed = search closing depth 20 fits 2000

  github-Closed : Closed (GithubPublic.query web input key)
  unfolding GithubPublic.query GithubPublic.lookup
  github-Closed = search closing depth 20 fits 2000

  search-Closed : (base limit words : Text) → Closed (Searches.query web base limit words input key)
  unfolding Searches.query Searches.search
  search-Closed base limit words = search closing depth 20 fits 2000

  urlhaus-Closed : Closed (Urlhaus.query web input key)
  unfolding Urlhaus.query Urlhaus.lookup
  urlhaus-Closed = search closing depth 20 fits 2000

module _ (web : Web) (input : Entity) where
  shodan-Closed : (key : Option Text) → Closed (Shodan.query web input key)
  unfolding Shodan.query Shodan.query_with Shodan.report
  shodan-Closed none = record { holds = tt }
  shodan-Closed (some key) = search closing depth 20 fits 2000

  virustotal-Closed : (key : Option Text) → Closed (VirusTotal.query web input key)
  unfolding VirusTotal.query VirusTotal.query_domain VirusTotal.lookup_domain VirusTotal.query_ip
      VirusTotal.lookup_ip VirusTotal.query_url
  virustotal-Closed none = record { holds = tt }
  virustotal-Closed (some key) = search closing depth 20 fits 2000

  report-Closed :
      (email url : Text) (result : Option (List ℕ × List Json))
      → Closed (Hibp.report web email url result)
  unfolding Hibp.report
  report-Closed email url none = search closing
  report-Closed email url (some (raw, breaches)) = search closing depth 20 fits 2000

  hibp-Closed : (key : Option Text) → Closed (Hibp.query web input key)
  unfolding Hibp.query Hibp.lookup
  hibp-Closed none = record { holds = tt }
  hibp-Closed (some key) = search (closing, report-Closed) depth 20 fits 2000

-- Whatever is answered to it, each built-in plugin raises or returns relationships whose endpoints
-- are the input or one of the entities that the same result proposes.
pub plugins-IsClosed :
    (web : Web) (input : Entity) (key : Option Text)
    → All (λ p. Every IsClosed (p.query input key)) (plugins web)
unfolding plugins CrtSh.plugin DnsWhois.plugin Wayback.plugin OpenCorporates.plugin
    GithubPublic.plugin Searches.opensanctions Searches.aleph_occrp Urlhaus.plugin VirusTotal.plugin
    Shodan.plugin Hibp.plugin
plugins-IsClosed web input key = (
  crtsh-Closed web input key,
  (
    dns-Closed web input key,
    (
      wayback-Closed web input key,
      (
        opencorporates-Closed web input key,
        (
          github-Closed web input key,
          (
            search (search-Closed web input key),
            (
              search (search-Closed web input key),
              (
                urlhaus-Closed web input key,
                (
                  virustotal-Closed web input key,
                  (shodan-Closed web input key, (hibp-Closed web input key, tt)),
                ),
              ),
            ),
          ),
        ),
      ),
    ),
  ),
)
