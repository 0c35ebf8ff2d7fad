-- ===== src/Servers/Tests.antt =====
-- The server of generic_server.go on the small table.
use fulfillment_service.Common.{
  none, some, String, ◌≡◌, refl, ok, err, true, false, ap, ◌∙◌, sym, str_eq, str_eq_refl,
}
use fulfillment_service.Database.Tx.{query, ensure_real, end, reporting, report_error}
use fulfillment_service.Database.Interceptor.{unary_server}
use fulfillment_service.Dao.Methods.{delete}
use fulfillment_service.Dao.Metadata.{add_tenancy_filter}
use fulfillment_service.Dao.Sample.{dao, env, tables, visible, object, foreign}
use fulfillment_service.Dao.Visibility.{sees, sees_of_CanSee}
use fulfillment_service.Servers.Generic.{
  Status, object_not_found, Paths, UpdateRequest, update_request, delete_request, handle,
  serve_request, delete_object,
}
use fulfillment_service.Servers.Atomic.{serve_request_error}
use fulfillment_service.Servers.Guarded.{update-guarded}

-- One path, of the whole payload.
abbrev paths : Paths String
paths = record {
  Compiled = Unit;
  Value = String;
  compile = λ text. ok tt;
  get_value = λ path o. some o.payload;
  set_value = λ path o value. record o { payload = value };
  clear_value = λ path o. record o { payload = "" };
}

serve_request_error_example :
    (serve_request env (handle dao env paths (delete_request "foreign")) tables).1 ≡ tables
unfolding serve_request handle delete_object delete unary_server reporting report_error end query
    ensure_real add_tenancy_filter
serve_request_error_example =
    serve_request_error dao env tables paths (delete_request "foreign") (object_not_found "foreign")
      refl

other_id : (a b : String) → str_eq a b ≡ false → a ≡ b → ⊥
other_id a b h e = clash (sym h ∙ ap (str_eq a) (sym e) ∙ str_eq_refl a)
  where
    clash : false ≡ true → ⊥
    clash p = cc

hidden : sees visible foreign ≡ false → sees visible foreign ≡ true → ⊥
hidden h k = cc

abbrev request : UpdateRequest String
request = record { object = some (object "foreign"); update_mask = none }

update-guarded_example :
    ((x : Status) × ((serve_request env (handle dao env paths (update_request request)) tables).0
        ≡ err x))
    × ((serve_request env (handle dao env paths (update_request request)) tables).1 ≡ tables)
update-guarded_example =
    update-guarded dao env tables visible refl paths request (object "foreign") refl (
      (λ h. other_id "held" "foreign" refl h.0),
      (
        (λ h. hidden refl (sees_of_CanSee visible foreign h.1)),
        ((λ h. other_id "free" "foreign" refl h.0), tt),
      ),
    )
