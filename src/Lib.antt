-- ===== src/Lib.antt =====
-- plug_and_play_autosar: a verification library of the diagnostic modules of an AUTOSAR stack, the
-- event manager under dem/ and the session layer and dispatcher of the communication manager under
-- core/dcm/.
--
-- The program. A monitor reports the result of a test of an event to the event manager
-- (Dem_SetEventStatus, Dem_ReportErrorStatus in dem/src/impl/Dem_Core_impl.c). The result is
-- debounced (dem/src/Dem_Debounce.c); a qualified result changes the UDS status and the counters of
-- the event, and a changed event is stored in the event memory of its destination, where it may
-- displace a less significant one (dem/src/impl/Dem_Private_impl.c). The ends of operation cycles age
-- confirmed events until they are healed and deleted. A tester reads and clears that data by
-- requests, which the communication manager dispatches by service id, session and security level
-- (core/dcm/src/Dcm_Dsd.c), to a service of its own or to one of the application. The session layer
-- (core/dcm/src/Dcm_Dsl.c) receives the requests in pieces from the router, keeps sessions and
-- timers, and gives the responses to the router.
--
-- The files.
--   Common: signed integers with C's division and casts, the bits of a `uint8`, Boolean tests, lists.
--   Dem/Types: the configuration and the records of the event manager.
--   Dem/Debounce: preDebounceCounterBased, preDebounceTimeBased, TimeBasedDebounceMainFunction,
--     fdcInternalToUDSFdc, resetDebounceCounter, RunPredebounce. Under it Counter, Fdc and Time.
--   Dem/Status: updateEventOnFAILED, updateEventOnPASSED, handleFaultConfirmation,
--     handleAgingCounterOnFailed, setDefaultEventStatus, resetEventStatusRec, mergeEventStatusRec.
--     Under it Invariant and Confirmation.
--   Dem/State: the static variables as one record, the lookups, the notifications, and
--     setNvMBlockChanged and Dem_NvM_SetEventBlockChanged of dem/src/Dem_NvM.c.
--   Dem/Memory: storeEventMem, storeEventEvtMem, getEventForDisplacement, findAndDisplaceEvent,
--     lookupEventForDisplacement, deleteEventMem, the overflow indication, rearrangeEventTimeStamp.
--     Under it Entries, Store, Displacement, Rearrange,
--     Frame and Unique.
--   Dem/Dtc: dtcIsGroup, checkDtcGroup, checkDtcKind, enableConditionsSet, DTCSettingDisabled,
--     eventProcessingAllowed. Under it Groups.
--   Dem/Filter: Dem_SetDTCFilter, Dem_GetNumberOfFilteredDtc, Dem_GetNextFilteredDTC of
--     dem/src/impl/Dem_Filter_impl.c, and matchDTCWithDtcFilter. Under it Reads.
--   Dem/Event: updateEventStatusRec, handleEvent, handlePreInitEvent, resetEventStatus and their
--     callers in Dem_Core_impl.c. Under it Guards, Confirmed and Unique.
--   Dem/Cycle: operationCycleStart, operationCycleEnd, ageEvent, handleAging, DeleteDTCData,
--     setOperationCycleState. Under it Start, Aging, UniqueEvents and Unique.
--   Dcm/Dsd: DsdHandleRequest, ServiceIndication, lookupSid, selectServiceFunction,
--     DsdLookupSubService, createAndSendNcr, and DspCheckSessionLevel and DspCheckSecurityLevel of
--     core/dcm/src/Dcm_Dsp.c. Under it Access and Negative.
--   Dcm/External: the life of a service of the application: start, externalServiceMainFunction,
--     DsdExternalProcessingDone, DsdExternalSetNegResponse, DsdCancelPendingExternalServices,
--     DcmConfirmation, DsdDspProcessingDone. Under it Responses.
--   Dcm/Dsl: the session layer, its configuration and state, and the lookups. Under it Session
--     (changeDiagnosticSession and the accessors), Buffers (the PDUs for periodic data,
--     releaseExternalRxTxBuffers, DslDsdProcessingDone), Reception (DslStartOfReception,
--     DslCopyDataToRxBuffer), Indication (DslTpRxIndicationFromPduR), Transmission
--     (sendResponseWithStatus, DslDsdSendResponsePending, DslCopyTxData), Confirmation
--     (DslTpTxConfirmation), Main (DslMain) and Startup (DslInit, DslDspSilentlyStartProtocol, the
--     requests that the program injects). Their proofs are in Session/Change, Buffers/Periodic,
--     Buffers/Release, Reception/Copy, Reception/Exclusive, Indication/Delivery,
--     Indication/Preemption, Transmission/Copied, Confirmation/Frees, Main/Timeout and Main/Pending
--     (calls of DslMain while one protocol acts), on Session/Frame, Buffers/Quiet, Buffers/Timers,
--     Main/Rounds and Main/Waiting.
--   Dcm/Dsp: services of the program itself, core/dcm/src/Dcm_Dsp.c. Security is the state of
--     DspUdsSecurityAccess; under it Access (the service), Timers (DspTimerMain and DspInit), Unlock
--     (what changes the level), Guessing and Attempts (how many keys can be tried). Memory is
--     DspUdsReadMemoryByAddress, DspUdsWriteMemoryByAddress and DspMemoryMainFunction; under it
--     Requests and Writes (what the parsers recover), Ranges and Calls (what is reached). Periodic is
--     the table of periodic identifiers with DspPdidAddOrUpdate, DspPdidRemove,
--     ClearPeriodicIdentifier and DspStopPeriodicDids, without DspPeriodicDIDMainFunction, whose
--     requests can start a protocol and so clear the table while it is walked; under it Table,
--     Updates, Main and Stop.
--   The modules named Tests hold concrete configurations and runs.
--
-- The correspondence. The static variables of Dem_Private_impl.c are the record Dem, and the
-- configuration set is the record Config; a function that changes them takes the state and returns
-- it. A pointer that may be NULL is an Option. The status record of an event is passed by value and
-- written back to its place, since displacement changes the records of other events only. A call of
-- the application or of a callback is an entry in a list, or, where its answer counts, an argument.
-- A loop over a buffer is recursion over its list, or over the number of its rounds, so that no fuel
-- is needed but for ClearPeriodicIdentifier, whose loop need not end. `uint8` counters that the code guards by a maximum are numbers; where the code wraps,
-- the wrap is written out. A read outside a buffer, which C leaves undefined, finds nothing.
--
-- The variant. DEM_FAILURE_PROCESSING_DEM_INTERNAL, DEM_AGING_PROCESSING_DEM_INTERNAL and
-- DEM_DISPLACEMENT_PROCESSING_DEM_INTERNAL are defined, both event memories, time stamps and NvM are
-- on, and each way to clear the aging counter is modelled. Events have no freeze frame class and no
-- extended data class. Indicators, permanent memory, combined events, OBD displacement, IUMPR,
-- extensions and DTC suppression are off. Reports to the error tracer leave no trace.
--
-- In the session layer USE_COMM, periodic transmission and the jump to the boot loader are on, and split
-- tasks are off. The pointers between the tables of its configuration are indices; the answers of the
-- router and of the callbacks are functions of all calls made before, and calls of other components
-- are listed in the state, the newest first. A read through NULL is such a call.
--
-- In the services DCM_SECURITY_EOL_INDEX is not 0, CFG_DCM_SECURITY_ACCESS_NRC_FIX is off, and so is
-- synchronized sampling. The callbacks of the application for seeds, keys and memory are functions of
-- the calls made before.
--
-- Not modelled. Freeze frames, extended data, indicators, permanent memory, in-use ratios and the
-- initialization of the event manager, its functions for the communication manager, the clearing of
-- DTCs (dem/src/impl/Dem_Dcm_impl.c, Dem_ExtData_impl.c, Dem_Init_impl.c), and the
-- writing of NvM blocks: they read and extend what is modelled here. Of the communication manager, the
-- other diagnostic services of core/dcm/src/Dcm_Dsp.c, response on event
-- (Dcm_ROE.c) and the helpers of Dcm_Internal.c. The abstraction and hal directories are C++ drivers.
pub mod Common
pub mod Dem
pub mod Dcm
