-- ===== src/StatusListCache/Layers.antt =====
-- The two layers of the store in internal/statuslistcache/json_cache.go, and the map that they stand for.
use verifiably.Prelude.{
  ◌≡◌, sym, ap, ◌∙◌, inl, inr, true, some, String, arith, eq_iff, str_eq, Option-cases, Bool-cases,
}
use verifiably.Prelude.Dict.{Dict, find, put, find-put}
use verifiably.StatusListCache.{Entry, JsonStore, World, Disk, on_disk, load, save}

-- A file gives back the entry that was written to it, and lists of two addresses have two files.
pub record Faithful (d : Disk) : Type 0 where
  pub read_show : (e : Entry) → d.read_entry (d.show_entry e) ≡ some e
  pub injective : (a b : String) → d.url_key a ≡ d.url_key b → a ≡ b

-- A call of Fetch, or a restart of the process.
pub data Event : Type 0 where
  fetches : World → String → String → Event
  restarts : Event

-- The store knows exactly the entries of the map, in memory perhaps fewer.
pub record Agrees (d : Disk) (s : JsonStore) (m : Dict Entry) : Type 0 where
  pub mem : (url : String) (e : Entry) → find s.items url ≡ some e → find m url ≡ some e
  pub disk : (url : String) → on_disk d s url ≡ find m url

module _ (d : Disk) where
  pub load-Agrees :
      (s : JsonStore) (m : Dict Entry) (url : String)
      → Agrees d s m
      → Agrees d (load d s url).0 m × ((load d s url).1 ≡ find m url)
  unfolding load
  load-Agrees s m url a = elim (Option-cases (find s.items url)) [
    | inr (e, hit) ↦ rw (hit, load) (a, sym (a.mem url e hit))
    | inl miss ↦ elim (Option-cases (on_disk d s url)) [
      | inl absent ↦ rw (miss, load, absent) (a, sym absent ∙ a.disk url)
      | inr (e, there) ↦
          rw (miss, load, there)
            (
              record {
                mem = λ other e' h. ground (
                  arith,
                  find-put s.items url other e,
                  eq_iff url other,
                  a.mem other e',
                  a.disk url,
                  there,
                  h,
                );
                disk = a.disk;
              },
              sym there ∙ a.disk url,
            )
    ]
  ]

  pub save-Agrees :
      (s : JsonStore) (m : Dict Entry) (e : Entry)
      → Faithful d
      → Agrees d s m
      → Agrees d (save d true e s) (put m e.list_url e)
  unfolding save
  save-Agrees s m e faithful a = record {
    mem = λ other e' h. ground (
      arith,
      find-put s.items e.list_url other e,
      find-put m e.list_url other e,
      a.mem other e',
      eq_iff e.list_url other,
      h,
    );
    disk = λ other. elim (Bool-cases (str_eq e.list_url other)) [
      | inl same ↦ ground (
        arith,
        find-put s.files (d.url_key e.list_url) (d.url_key other) (d.show_entry e),
        find-put m e.list_url other e,
        eq_iff e.list_url other,
        eq_iff (d.url_key e.list_url) (d.url_key other),
        ap d.url_key ((eq_iff e.list_url other).0 same),
        faithful.read_show e,
      )
      | inr differs ↦ ground (
        arith,
        find-put s.files (d.url_key e.list_url) (d.url_key other) (d.show_entry e),
        find-put m e.list_url other e,
        eq_iff e.list_url other,
        eq_iff (d.url_key e.list_url) (d.url_key other),
        faithful.injective e.list_url other,
        a.disk other,
      )
    ];
  }
