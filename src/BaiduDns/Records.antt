-- ===== src/BaiduDns/Records.antt =====
-- baidu_dns.go: which record an address comes from.
use mathlib.Core.Option.{none-ne-some, some-injective}
use ssh_tunnel_manager.BaiduDns.{
  Api, new_dns_target, DnsRecord, Listed, listed, list_error, list_records, matches, find_record,
  query_baidu_dns_ip_with_base,
}
use ssh_tunnel_manager.Common.{
  ℕ, suc, ◌≡◌, refl, sym, ◌∙◌, true, List, [], ◌∷◌, none, some, Text, get_elem?, Bool-cases,
  Option-cases, inl, inr, ◌⊎◌, text, arith, equal_iff,
}

-- Record `index` of the list, which is a running A or AAAA record of the subdomain and has the address.
pub record Holds (api : Api) (sub : Text) (raws : List Text) (ip : Text) : Type 0 where
  pub index : ℕ
  pub raw : Text
  pub dns_record : DnsRecord
  pub listed_at : get_elem? raws index ≡ some raw
  pub decoded : api.decode_record raw ≡ some dns_record
  pub named : dns_record.domain ≡ sub
  pub running : dns_record.status ≡ text "RUNNING"
  pub typed : (dns_record.rd_type ≡ text "A") ⊎ (dns_record.rd_type ≡ text "AAAA")
  pub address : dns_record.rd_data ≡ ip

Holds-cons :
    (api : Api) (sub raw ip : Text) (raws : List Text)
    → Holds api sub raws ip
    → Holds api sub (raw ∷ raws) ip
Holds-cons api sub raw ip raws h = record {
  index = suc h.index;
  raw = h.raw;
  dns_record = h.dns_record;
  listed_at = h.listed_at;
  decoded = h.decoded;
  named = h.named;
  running = h.running;
  typed = h.typed;
  address = h.address;
}

matches-fields :
    (sub : Text) (r : DnsRecord)
    → matches sub r ≡ true
    → (r.domain ≡ sub)
      × (r.status ≡ text "RUNNING")
      × ((r.rd_type ≡ text "A") ⊎ (r.rd_type ≡ text "AAAA"))
matches-fields sub r h = ground (
  arith,
  h,
  equal_iff r.domain sub,
  equal_iff r.status (text "RUNNING"),
  equal_iff r.rd_type (text "A"),
  equal_iff r.rd_type (text "AAAA"),
)

find_record-Holds :
    (api : Api) (sub : Text) (raws : List Text) (ip : Text)
    → find_record api sub raws ≡ some ip
    → Holds api sub raws ip
unfolding find_record
find_record-Holds api sub [] ip h = absurd (none-ne-some ip h)
find_record-Holds api sub (raw ∷ raws) ip h = elim (Option-cases (api.decode_record raw)) [
  | inl n ↦
      Holds-cons api sub raw ip raws
        (find_record-Holds api sub raws ip (sym (rw (n, find_record) refl) ∙ h))
  | inr (r, e) ↦ elim (Bool-cases (matches sub r)) [
    | inr f ↦
        Holds-cons api sub raw ip raws
          (find_record-Holds api sub raws ip (sym (rw (e, find_record) (rw f refl)) ∙ h))
    | inl y ↦ record {
      index = 0;
      raw = raw;
      dns_record = r;
      listed_at = refl;
      decoded = e;
      named = (matches-fields sub r y).0;
      running = (matches-fields sub r y).1;
      typed = (matches-fields sub r y).2;
      address = some-injective _ _ (sym (rw (e, find_record) (rw y refl)) ∙ h);
    }
  ]
]

-- An address that the Baidu API gives for a subdomain is the data of a record of the zone that is
-- running, has the type A or AAAA and the name of the subdomain.
pub query_baidu_dns_ip_with_base-Holds :
    (api : Api) (ak sk zone sub api_base ip : Text)
    → query_baidu_dns_ip_with_base api ak sk zone sub api_base ≡ some ip
    → (records : List Text) × (list_records api (new_dns_target ak sk zone api_base)
        ≡ listed records)
      × Holds api sub records ip
unfolding query_baidu_dns_ip_with_base
query_baidu_dns_ip_with_base-Holds api ak sk zone sub api_base ip h =
    by_listed (list_records api (new_dns_target ak sk zone api_base)) refl h
  where
    by_listed :
        (l : Listed)
        → list_records api (new_dns_target ak sk zone api_base) ≡ l
        → elim l [ list_error e ↦ none | listed records ↦ find_record api sub records ] ≡ some ip
        → (records : List Text) × (list_records api (new_dns_target ak sk zone api_base)
            ≡ listed records)
          × Holds api sub records ip
    by_listed (list_error e) p k = absurd (none-ne-some ip k)
    by_listed (listed records) p k = (records, p, find_record-Holds api sub records ip k)
