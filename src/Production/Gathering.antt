-- ===== src/Production/Gathering.antt =====
-- What the production gate reads, key by key.
use customs_buyer_intelligen.Prelude.{◌≡◌, refl}
use customs_buyer_intelligen.Python.{Fields, Host, get, ok}
use customs_buyer_intelligen.Python.Yielding.{Yields, ok-Yields, Yields-ok, step-Yields}
use customs_buyer_intelligen.Acceptance.Scenarios.{int_or_zero}
use customs_buyer_intelligen.Production.Live.{dict_at, validate_live}
use customs_buyer_intelligen.Production.Gate.{
  Evidence, texts_in, mapping_state, object_or_empty, gather,
}

module _ {F : Type 0} ⦃py : Host F⦄ (payload : Fields F) where
  -- Where each part of the evidence is read.
  pub record IsGathered (e : Evidence F) (health mapping : Fields F) : Type 0 where
    pub is_health : dict_at "health" payload ≡ ok health
    pub is_contract : dict_at "contract" payload ≡ ok e.contract
    pub is_wal : dict_at "mutation_wal" health ≡ ok e.wal
    pub is_live : validate_live health e.contract ≡ ok e.live
    pub is_active : texts_in (get "active_mcp_tool_names" payload) ≡ ok e.active
    pub is_prepared : int_or_zero (get "prepared_count" e.wal) ≡ ok e.prepared_count
    pub is_guarded : texts_in (get "guarded_mutation_tools" e.wal) ≡ ok e.guarded
    pub is_automatic : texts_in (get "automatic_reconciliation_tools" e.wal) ≡ ok e.automatic
    pub is_unreconciled : texts_in (get "unreconciled_mutation_tools" e.wal) ≡ ok e.unreconciled
    pub is_v63 : e.v63 ≡ object_or_empty (get "demand_expansion_v6_3" e.contract)
    pub is_v63_wal : dict_at "mutation_wal_v6_3" e.v63 ≡ ok e.v63_wal
    pub is_mapping : dict_at "production_recovery_mapping_v6_3" e.v63 ≡ ok mapping
    pub is_state : mapping_state mapping ≡ ok e.mapping

  -- The evidence was read so.
  abbrev pub IsRead : Evidence F → Type 0
  IsRead e = (health : Fields F) × (mapping : Fields F) × IsGathered e health mapping

  gather-Yields : Yields IsRead (gather payload)
  unfolding gather
  gather-Yields = step-Yields IsRead (dict_at "health" payload) _ λ health a.
      step-Yields IsRead (dict_at "contract" payload) _ λ contract b.
        step-Yields IsRead (dict_at "mutation_wal" health) _ λ wal c.
          step-Yields IsRead (validate_live health contract) _ λ live d.
            step-Yields IsRead (texts_in (get "active_mcp_tool_names" payload)) _ λ active f.
              step-Yields IsRead (int_or_zero (get "prepared_count" wal)) _ λ prepared g.
                step-Yields IsRead (texts_in (get "guarded_mutation_tools" wal)) _ λ guarded h.
                  step-Yields IsRead (texts_in (get "automatic_reconciliation_tools" wal)) _
                    λ automatic i.
                      step-Yields IsRead (texts_in (get "unreconciled_mutation_tools" wal)) _
                        λ unreconciled j.
                          step-Yields IsRead
                            (dict_at "mutation_wal_v6_3"
                              (object_or_empty (get "demand_expansion_v6_3" contract)))
                            _
                            λ v63_wal k.
                              step-Yields IsRead
                                (dict_at "production_recovery_mapping_v6_3"
                                  (object_or_empty (get "demand_expansion_v6_3" contract)))
                                _
                                λ mapping l. step-Yields IsRead (mapping_state mapping) _ λ state m.
                                  ok-Yields IsRead _ (
                                    health,
                                    mapping,
                                    record {
                                      is_health = a;
                                      is_contract = b;
                                      is_wal = c;
                                      is_live = d;
                                      is_active = f;
                                      is_prepared = g;
                                      is_guarded = h;
                                      is_automatic = i;
                                      is_unreconciled = j;
                                      is_v63 = refl;
                                      is_v63_wal = k;
                                      is_mapping = l;
                                      is_state = m;
                                    },
                                  )

  pub gather-IsRead : (e : Evidence F) → gather payload ≡ ok e → IsRead e
  gather-IsRead e = Yields-ok IsRead (gather payload) e gather-Yields
