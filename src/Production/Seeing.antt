-- ===== src/Production/Seeing.antt =====
-- What the validation of a live deployment reads, key by key.
use customs_buyer_intelligen.Prelude.{◌≡◌, refl}
use customs_buyer_intelligen.Python.{Fields, Host, get, ok}
use customs_buyer_intelligen.Python.Yielding.{Yields, ok-Yields, Yields-ok, step-Yields}
use customs_buyer_intelligen.Acceptance.Scenarios.{int_or_zero}
use customs_buyer_intelligen.Production.Live.{
  Reading, dict_at, texts_at, is_correlation_safe, is_peer_safe, read_live,
}

module _ {F : Type 0} ⦃py : Host F⦄ (health contract : Fields F) where
  -- Where each part is read; the last four are the policies' documents.
  pub record IsSeen (r : Reading F) (health_corr contract_corr health_peer contract_peer : Fields F)
      : Type 0 where
    pub is_wal : dict_at "mutation_wal" health ≡ ok r.wal
    pub is_prepared : int_or_zero (get "prepared_count" r.wal) ≡ ok r.prepared_count
    pub is_unreconciled : texts_at "unreconciled_mutation_tools" r.wal ≡ ok r.unreconciled
    pub is_guarded : texts_at "guarded_mutation_tools" r.wal ≡ ok r.guarded
    pub is_automatic : texts_at "automatic_reconciliation_tools" r.wal ≡ ok r.automatic
    pub is_health_corr : dict_at "mutation_event_correlation" health ≡ ok health_corr
    pub is_wal_contract : dict_at "production_adapter_mutation_wal" contract ≡ ok r.wal_contract
    pub is_contract_corr : dict_at "durable_event_correlation" r.wal_contract ≡ ok contract_corr
    pub is_health_peer : dict_at "peer_pivot_lifecycle_recovery" health ≡ ok health_peer
    pub is_contract_peer : dict_at "peer_pivot_lifecycle_recovery" r.wal_contract ≡ ok contract_peer
    pub is_correlation : r.correlation_safe ≡ is_correlation_safe health_corr contract_corr
    pub is_peer : is_peer_safe health_peer contract_peer ≡ ok r.peer_safe

  -- The reading was made so.
  abbrev pub IsRead : Reading F → Type 0
  IsRead r =
      (health_corr : Fields F) × (contract_corr : Fields F) × (health_peer : Fields F)
      × (contract_peer : Fields F) × IsSeen r health_corr contract_corr health_peer contract_peer

  read_live-Yields : Yields IsRead (read_live health contract)
  unfolding read_live
  read_live-Yields = step-Yields IsRead (dict_at "mutation_wal" health) _ λ wal a.
      step-Yields IsRead (int_or_zero (get "prepared_count" wal)) _ λ prepared b.
        step-Yields IsRead (texts_at "unreconciled_mutation_tools" wal) _ λ unreconciled c.
          step-Yields IsRead (texts_at "guarded_mutation_tools" wal) _ λ guarded d.
            step-Yields IsRead (texts_at "automatic_reconciliation_tools" wal) _ λ automatic e.
              step-Yields IsRead (dict_at "mutation_event_correlation" health) _ λ corr f.
                step-Yields IsRead (dict_at "production_adapter_mutation_wal" contract) _
                  λ wal_contract g.
                    step-Yields IsRead (dict_at "durable_event_correlation" wal_contract) _
                      λ corr' h.
                        step-Yields IsRead (dict_at "peer_pivot_lifecycle_recovery" health) _
                          λ peer i.
                            step-Yields IsRead
                              (dict_at "peer_pivot_lifecycle_recovery" wal_contract) _
                              λ peer' j. step-Yields IsRead (is_peer_safe peer peer') _ λ safe k.
                                ok-Yields IsRead _ (
                                  corr,
                                  corr',
                                  peer,
                                  peer',
                                  record {
                                    is_wal = a;
                                    is_prepared = b;
                                    is_unreconciled = c;
                                    is_guarded = d;
                                    is_automatic = e;
                                    is_health_corr = f;
                                    is_wal_contract = g;
                                    is_contract_corr = h;
                                    is_health_peer = i;
                                    is_contract_peer = j;
                                    is_correlation = refl;
                                    is_peer = k;
                                  },
                                )

  pub read_live-IsRead : (r : Reading F) → read_live health contract ≡ ok r → IsRead r
  read_live-IsRead r = Yields-ok IsRead (read_live health contract) r read_live-Yields
