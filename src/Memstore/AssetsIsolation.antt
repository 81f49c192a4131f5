-- ===== src/Memstore/AssetsIsolation.antt =====
-- A call for one tenant on assets, assignments or documents leaves every other tenant's rows alone.
use go_tangra_asset.Common.{String, ◌≢◌, arith, Time}
use go_tangra_asset.Table.Laws.{lookup-has}
use go_tangra_asset.Table.Select.{
  select-insert_skip, select-erase_skip, select-erase_where_skip, select-update_where_skip,
}
use go_tangra_asset.Memstore.State.{Mem, Env}
use go_tangra_asset.Memstore.View.{SameView, call-SameView}
use go_tangra_asset.Models.{Asset, Assignment, Document}
use go_tangra_asset.Memstore.Assets.{create_asset, update_asset, delete_asset}
use go_tangra_asset.Memstore.Assignments.{insert_assignment, close_active_assignment}
use go_tangra_asset.Memstore.Documents.{
  insert_document, delete_document, move_document_to_paperless,
}

module _ (u : String) (env : Env) (m : Mem) where
  pub create_asset-SameView : (a : Asset) → u ≢ a.tenant_id → SameView u m (create_asset env a m).1
  unfolding create_asset
  create_asset-SameView a other =
      call-SameView u "CreateAsset" _ _ (grind (arith, lookup-has, select-insert_skip))

  pub update_asset-SameView : (a : Asset) → u ≢ a.tenant_id → SameView u m (update_asset env a m).1
  unfolding update_asset
  update_asset-SameView a other =
      call-SameView u "UpdateAsset" _ _ (grind (arith, select-insert_skip))

  pub insert_assignment-SameView :
      (a : Assignment) → u ≢ a.tenant_id → SameView u m (insert_assignment env a m).1
  unfolding insert_assignment
  insert_assignment-SameView a other =
      call-SameView u "InsertAssignment" _ _ (grind (arith, lookup-has, select-insert_skip))

  pub close_active_assignment-SameView :
      (tenant id : String) (at : Time)
      → u ≢ tenant
      → SameView u m (close_active_assignment env tenant id at m).1
  unfolding close_active_assignment
  close_active_assignment-SameView tenant id at other =
      call-SameView u "CloseActiveAssignment" _ _ (grind (arith, select-update_where_skip))

  pub insert_document-SameView :
      (d : Document) → u ≢ d.tenant_id → SameView u m (insert_document env d m).1
  unfolding insert_document
  insert_document-SameView d other =
      call-SameView u "InsertDocument" _ _ (grind (arith, lookup-has, select-insert_skip))

module _ (u : String) (m : Mem) (tenant id : String) (other : u ≢ tenant) where
  pub delete_asset-SameView : SameView u m (delete_asset tenant id m).1
  unfolding delete_asset
  delete_asset-SameView =
      call-SameView u "DeleteAsset" _ _ (grind (arith, select-erase_skip, select-erase_where_skip))

  pub delete_document-SameView : SameView u m (delete_document tenant id m).1
  unfolding delete_document
  delete_document-SameView = call-SameView u "DeleteDocument" _ _ (grind (arith, select-erase_skip))

  pub move_document_to_paperless-SameView :
      (paperless_id : String) → SameView u m (move_document_to_paperless tenant id paperless_id m).1
  unfolding move_document_to_paperless
  move_document_to_paperless-SameView paperless_id =
      call-SameView u "MoveDocumentToPaperless" _ _ (grind (arith, select-insert_skip))
