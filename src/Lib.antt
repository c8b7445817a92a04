-- ===== src/Lib.antt =====
-- Solworker: a verification library for the owned scheduler of the solworker crate.
--
-- Reservation/ is src/scheduler/reservation.rs, the optional capacity domain. Cost is SWCost with
-- its checked arithmetic, Limits is SWLimits, Ledger is the shared usage with claim,
-- claim_ordinary_many and release, Bank is CreditBank with its refund, State and Pool are
-- SWReservationPool, SWReservation, SWByteLease and OwnedCharge with every operation that changes
-- the ledger, the credits or the lists of living handles. Pool/History runs lists of these calls.
-- Reference counts are the lists of the handles that live: a pipeline is listed while one of its
-- reservations lives, and its drop follows the drop of the last one. The mutexes of the source are
-- the atomicity of one call here. The wake that follows a release is not modelled, since it
-- changes no state of this part.
--
-- Ready/ is src/scheduler/ready.rs: Queue is PendingQueue, an ordered map of ordinary entries, an
-- ordered set of resource keys and an index of entries by identity, and ReadyQueue adds the two
-- counts. Maps holds the ordered map, the ordered set and the hash map as lists.
--
-- Demand/ is src/scheduler/demand.rs: Selection is the published aggregate of a stage, State and
-- Graph are DemandState with register, remove, attach and change, and Service is aggregate and
-- service. The tie numbers of Selection order the resource keys of Ready/.
--
-- WorkSet/ is src/scheduler/work_set.rs: SWWorkSet, SWDiscoveryPermit and WorkSetLease. The phase
-- of the runtime is an argument of each call. The living permits and leases are part of the state,
-- so that a child needs a permit and a hook needs a lease, as the source's ownership has it.
-- `must_wait` is the loop condition of wait_drained, without its refusal in CPU and owner contexts
-- and its condition variable.
--
-- Range is src/scheduler/prerequisite_range.rs, Scheduler/Accounting is the Accounting and the
-- AccountingLease of src/scheduler.rs, whose limits Scheduler/OwnedLimits validates as
-- src/scheduler/admission.rs does, and Progress/Wake is the SWWake of src/progress.rs. In Range,
-- Accounting and Wake the critical sections or atomic actions of all callers interleave: a history
-- is a list of such steps in any order, sequentially consistent as the source asks for where it
-- matters.
--
-- Scheduler/Class is one execution class of src/scheduler.rs: ClassState holds the records, the
-- ready queue and the deferred queue of Ready/, the mailbox of demand updates and the settled
-- envelopes. Gate has the sections of a job up to its claim or suppression
-- (submit_payload_accounted, activate_prerequisite, activate_ready, suppress, claim_and_run),
-- Settle those after it, with dispatch_class_ready, publish_portion_controls of
-- src/scheduler/bulk.rs and activate_prerequisite_range, and Promote is promote_locked with
-- apply_demand_updates. A section is what one caller does while it holds the gate of the class, or
-- a record; History runs sections in any order, and a failed expectation or a count below zero is
-- a panic: a record that is gone, a selection without a rank, a member that is not registered, a
-- portion over its assertion, a key past the array of a range. The thread that submits a job holds
-- its attachment until it has registered the member and stored the selection; `attachments` lists
-- these threads and what each still has to do. The selections come from Demand/, and their having
-- a rank is a hypothesis: the graph gives a node with a baseline a rank. The other children prove
-- what each section keeps. The membership in a group and the place in its index are flags of the
-- record, and the notified groups and the backend's work are left out.
--
-- Scheduler/External is the table of external records of src/scheduler.rs (admit_external,
-- settle_external, claim_external, finish_external) with SWProducer::complete_with of
-- src/external/producer.rs, for one identity: the calls that have begun and not ended are counted
-- in the state, and their sections interleave. The controls of a producer exist only after the
-- attachment, as in the source.
--
-- Scheduler/Activations is enqueue_activation of src/scheduler.rs, the queue that a thread drains;
-- what an activation enqueues and whether it panics are parameters, since it is any of the
-- sections above.
--
-- A `usize` or `u64` is a natural number below 2^64 and its checked arithmetic is written out. The
-- sequence numbers of the queues and the ties are `i128` in the source and integers here, since
-- 2^127 pushes do not happen; the identities that `next_serial` hands out stand for allocations
-- and have no bound. Service recurs on its own budget. The two loops of promote_locked run on
-- fuel, one more than the entries of the queue that they empty, and the class's theorems show that
-- this is enough. The drain of the activations runs on a fuel that is given, and any above the
-- weight of the activation is enough, where activations have weights that what they enqueue does
-- not reach.
--
-- Not modelled: the runtime and its lifecycle, owner phases and deliveries, the physical accesses
-- of external providers, completions and dependencies, groups, notification, storage pools,
-- scratch and bulk admission, with acquire_many_into of src/scheduler/bulk.rs. The vendored thread
-- pool is another project's code.
pub mod Prelude
pub mod Reservation
pub mod Demand
pub mod Ready
pub mod WorkSet
pub mod Range
pub mod Progress
pub mod Scheduler
pub mod Examples
