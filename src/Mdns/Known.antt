-- ===== src/Mdns/Known.antt =====
-- What a packet can do to what the collector already knows.
use go_zendure2mqtt.Common.{
  ℕ, zero, suc, ◌+◌, Bytes, beq_iff, Map, lookup, lookup-insert, Option, none, some, Bool, true,
  false, List, ◌≡◌, refl, arith, is_some, if◌then◌else◌, Option-cases, inl, inr, Bool-cases, ◌==◌,
  ltb, length,
}
use go_zendure2mqtt.Catalog.Entry.{equal_fold}
use go_zendure2mqtt.Mdns.Name.{
  NameResult, parsed, failed, parse_name, first_label, type_a, type_ptr, type_txt, type_srv,
}
use go_zendure2mqtt.Mdns.Collector.{
  Service, Collector, service_at, put_service, take_ptr, take_srv, take_txt, take_a, take_record,
  take_records, skip_questions, ingest, u16,
}

-- A known service stays, with its label, and every service is labelled by its name's first label.
pub record Keeps (c d : Collector) : Type 0 where
  pub known :
      (k : Bytes) → is_some (lookup k c.services) ≡ true → is_some (lookup k d.services) ≡ true
  pub labelled :
      ((k : Bytes) (s : Service) → lookup k c.services ≡ some s → s.instance_label ≡ first_label k)
      → (k : Bytes) (s : Service) → lookup k d.services ≡ some s
      → s.instance_label ≡ first_label k

Keeps-refl : (c : Collector) → Keeps c c
Keeps-refl c = record { known = λ k h. h; labelled = λ h k s e. h k s e }

Keeps-trans : (c d e : Collector) → Keeps c d → Keeps d e → Keeps c e
Keeps-trans c d e h k = record {
  known = λ j i. k.known j (h.known j i);
  labelled = λ l j s i. k.labelled (h.labelled l) j s i;
}

Keeps-if : (c d e : Collector) (b : Bool) → Keeps c d → Keeps c e → Keeps c (if b then d else e)
Keeps-if c d e true h k = h
Keeps-if c d e false h k = k

service_at-label :
    (c : Collector) (name : Bytes)
    → ((k : Bytes) (s : Service) → lookup k c.services ≡ some s → s.instance_label ≡ first_label k)
    → (service_at c name).instance_label ≡ first_label name
unfolding service_at
service_at-label c name h = elim (Option-cases (lookup name c.services)) [
  | inl e ↦ ground (arith, e)
  | inr (s, e) ↦ ground (arith, e, h name s e)
]

Keeps-put_service :
    (c : Collector) (name : Bytes) (s : Service)
    → s.instance_label ≡ (service_at c name).instance_label
    → Keeps c (put_service name s c)
unfolding put_service
Keeps-put_service c name s e = record {
  known = λ k h. ground (arith, h, lookup-insert name k s c.services);
  labelled = λ l k t h. ground (
    arith,
    h,
    e,
    l k t,
    beq_iff name k,
    service_at-label c name l,
    lookup-insert name k s c.services,
  );
}

-- What a record writes is the collector itself, or a service put into it.
data Writes (c : Collector) (d : Collector) : Type 0 where
  nothing : d ≡ c → Writes c d
  service :
      (name : Bytes) (s : Service)
      → s.instance_label ≡ (service_at c name).instance_label
      → d ≡ put_service name s c
      → Writes c d
  address : (ips : Map (List Bytes)) → d ≡ record c { host_ip = ips } → Writes c d

Keeps-Writes : (c d : Collector) → Writes c d → Keeps c d
Keeps-Writes c d (nothing e) = rw e (Keeps-refl c)
Keeps-Writes c d (service name s l e) = rw e (Keeps-put_service c name s l)
Keeps-Writes c d (address ips e) = rw e (record { known = λ k h. h; labelled = λ h k s i. h k s i })

module _ (c : Collector) (msg service_full name : Bytes) (start rdlen : ℕ) where
  Writes-take_ptr :
      (r : Option NameResult)
      → parse_name msg start ≡ r
      → Writes c (take_ptr msg service_full name start c)
  unfolding take_ptr
  Writes-take_ptr none e = nothing (ground (arith, e))
  Writes-take_ptr (some (failed x)) e = nothing (ground (arith, e))
  Writes-take_ptr (some (parsed target n)) e = elim (Bool-cases (equal_fold name service_full)) [
    | inl t ↦ service target (service_at c target) refl (ground (arith, e, t))
    | inr f ↦ nothing (ground (arith, e, f))
  ]

  Writes-take_srv :
      (r : Option NameResult)
      → parse_name msg (start + 6) ≡ r
      → Writes c (take_srv msg name start rdlen c)
  unfolding take_srv
  Writes-take_srv none e = nothing (ground (arith, e))
  Writes-take_srv (some (failed x)) e = nothing (ground (arith, e))
  Writes-take_srv (some (parsed target n)) e = elim (Bool-cases (ltb rdlen 6)) [
    | inl t ↦ nothing (ground (arith, e, t))
    | inr f ↦
        service name (record (service_at c name) { port = u16 msg (start + 4); host = target }) refl
          (ground (arith, e, f))
  ]

  Keeps-take_record :
      (rr_type : ℕ) → Keeps c (take_record msg service_full rr_type name start rdlen c)
  unfolding take_record
  Keeps-take_record rr_type =
      Keeps-if c (take_ptr msg service_full name start c) _ (rr_type == type_ptr)
        (Keeps-Writes c _ (Writes-take_ptr (parse_name msg start) refl))
        (Keeps-if c (take_srv msg name start rdlen c) _ (rr_type == type_srv)
          (Keeps-Writes c _ (Writes-take_srv (parse_name msg (start + 6)) refl))
          (Keeps-if c (take_txt msg name start rdlen c) _ (rr_type == type_txt)
            (Keeps-put_service c name _ refl)
            (Keeps-if c (take_a msg name start rdlen c) c (rr_type == type_a)
              (Keeps-if c _ c (rdlen == 4)
                (record { known = λ k h. h; labelled = λ h k s i. h k s i }) (Keeps-refl c))
              (Keeps-refl c))))

Keeps-parsed :
    (c : Collector) (r : Option NameResult) (f : Bytes → ℕ → Collector)
    → ((t : Bytes) (n : ℕ) → Keeps c (f t n))
    → Keeps c (elim r [ some (parsed t n) ↦ f t n | _ ↦ c ])
Keeps-parsed c none f h = Keeps-refl c
Keeps-parsed c (some (failed e)) f h = Keeps-refl c
Keeps-parsed c (some (parsed t n)) f h = h t n

Keeps-take_records :
    (total : ℕ) (msg service_full : Bytes) (off : ℕ) (c : Collector)
    → Keeps c (take_records total msg service_full off c)
unfolding take_records
Keeps-take_records zero msg service_full off c = Keeps-refl c
Keeps-take_records (suc total) msg service_full off c =
    Keeps-parsed c (parse_name msg off) _ λ name n.
      let d = take_record msg service_full (u16 msg n) name (n + 10) (u16 msg (n + 8)) c in
      let stop = n + 10 + u16 msg (n + 8) in
      let rest = take_records total msg service_full stop d in
      Keeps-if c c (if ltb (length msg) stop then c else rest) (ltb (length msg) (n + 10))
        (Keeps-refl c)
        (Keeps-if c c rest (ltb (length msg) stop) (Keeps-refl c) (
          Keeps-trans c d rest
            (Keeps-take_record c msg service_full name (n + 10) (u16 msg (n + 8)) (u16 msg n))
            (Keeps-take_records total msg service_full stop d)))

Keeps-some :
    (c : Collector) (o : Option ℕ) (f : ℕ → Collector)
    → ((n : ℕ) → Keeps c (f n))
    → Keeps c (elim o [ none ↦ c | some n ↦ f n ])
Keeps-some c none f h = Keeps-refl c
Keeps-some c (some n) f h = h n

-- Whatever bytes a packet holds, every service that the collector knew is still known behind it, and
-- if each was labelled with the first label of its name, so is each service behind the packet.
pub ingest-Keeps : (msg service_full : Bytes) (c : Collector) → Keeps c (ingest msg service_full c)
unfolding ingest
ingest-Keeps msg service_full c = Keeps-if c c _ (ltb (length msg) 12) (Keeps-refl c) (
    Keeps-some c (skip_questions (u16 msg 4) msg 12) _
      (λ off. Keeps-take_records (u16 msg 6 + u16 msg 8 + u16 msg 10) msg service_full off c))
