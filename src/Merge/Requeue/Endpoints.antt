-- ===== src/Merge/Requeue/Endpoints.antt =====
-- What an operator can do to an item through the queue's endpoints.
use clankwork.Base.{ℕ, ◌≡◌, ◌≢◌, refl, true, false, some, ◌==◌, ==_iff, arith}
use clankwork.Merge.{queued, rejected, Item, World}
use clankwork.Merge.Table.{get_item, set_status, set_failure_log}
use clankwork.Merge.Table.Laws.{get_item-update_item}
use clankwork.Merge.Process.{put, put_status}
use clankwork.Merge.Requeue.{
  now_rejected, now_queued, is_skippable, skip_item, handle_queue_skip, retry_item,
  handle_queue_retry,
}

module _ (now : ℕ) (w : World) (i : Item) (h : get_item w.items i.id ≡ some i)
    (ne : i.id ≢ "") where
  nonempty : (i.id == "") ≡ false
  nonempty = ground (arith, ==_iff i.id "")

  skipped :
      is_skippable i.status ≡ true
      → (get_item (handle_queue_skip now i.id w).0.items i.id ≡ some (set_status now rejected i))
        × ((handle_queue_skip now i.id w).1 ≡ now_rejected i.id)
  unfolding handle_queue_skip skip_item put_status
  skipped s =
      rw (nonempty, h, s)
        (get_item-update_item i.id (set_status now rejected) w.items i (λ x. refl) h, refl)

  retried :
      i.status ≡ rejected
      → (get_item (handle_queue_retry now i.id w).0.items i.id
          ≡ some (set_status now queued (set_failure_log "" i)))
        × ((handle_queue_retry now i.id w).1 ≡ now_queued i.id)
  unfolding handle_queue_retry retry_item put put_status
  retried s =
      rw (nonempty, h, s)
        (
          get_item-update_item i.id (set_status now queued) _ (set_failure_log "" i) (λ x. refl)
              (get_item-update_item i.id (set_failure_log "") w.items i (λ x. refl) h),
          refl,
        )

-- An operator who skips an item that waits, is conflicted or has failed, and then retries it, is told
-- so both times, and the item is queued again with its attempts, its log emptied, and the time of
-- the skip left as its completion.
pub skipped_then_retried :
    (first second : ℕ) (w : World) (i : Item)
    → get_item w.items i.id ≡ some i
    → i.id ≢ ""
    → is_skippable i.status ≡ true
    → let skip = handle_queue_skip first i.id w in
      let retry = handle_queue_retry second i.id skip.0 in
      (skip.1 ≡ now_rejected i.id)
      × (retry.1 ≡ now_queued i.id)
      × (get_item retry.0.items i.id
          ≡ some (record i { status = queued; failure_log = ""; completed_at = some first }))
skipped_then_retried first second w i h ne s =
    let (r, a) = skipped first w i h ne s in
    let (q, b) =
      retried second (handle_queue_skip first i.id w).0 (set_status first rejected i) r ne refl in
    (a, b, q)
