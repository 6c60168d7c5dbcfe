-- ===== src/Lib.antt =====
-- The verification library of zuspec-be-sw, the software backend that turns Zuspec component models
-- into C: lowering passes over the model (src/zuspec/be/sw/passes), an emitter of scenarios with
-- constraints (src/zuspec/be/sw/scenario), a generator of register headers (src/zuspec/be/sw/mmr),
-- and the C runtime of the generated coroutines (src/zuspec/be/sw/crt). The passes run one after
-- the other on a shared context; the coroutines that AsyncLowerPass makes suspend on the queues and
-- tokens of the runtime.
--
-- Which file models which part, below src/zuspec/be/sw:
--   Rtl.CombOrder            passes/rtl/comb_order.py: CombTopoSortPass, with _collect_reads and
--                            _collect_stmt_reads_writes. run gives the process numbers in order,
--                            Fields the fields that a process names.
--   Rtl.Waits                passes/rtl/wait_lower.py: WaitLowerPass, and
--                            passes/rtl/counter_recognition.py: CounterRecognitionPass. CExpr is the
--                            C expression that the pass writes, with its value on uint64_t.
--   Rtl.Classify             passes/rtl/component_classify.py: ComponentClassifyPass. Awaits has
--                            the awaits of a body, wherever they stand.
--   Rtl.NextState            passes/rtl/next_state_split.py: NextStateSplitPass.
--   Rtl.ExprLower            passes/rtl/expr_lower.py: ExprLower and collect_local_names. CCode has the
--                            C expressions, Texts, Lower and Statements the methods, Source what the
--                            expressions mean.
--   Rtl.Types                passes/rtl/type_mapper.py: RtlTypeMapper, and _map_int of
--                            passes/type_lower.py.
--   Passes.AsyncLower        passes/async_lower.py: AsyncLowerPass. Nodes has the walks, Classify the
--                            classification, Suspend and Frames the coroutine frame, Lowering the run.
--   Passes.WaitPoints        passes/wait_point_analysis.py: WaitPointAnalysisPass. Scan has its methods,
--                            Takes the time of an execution.
--   Passes.TypeLower         passes/type_lower.py: the rest of TypeLowerPass. Visits has the sort of
--                            the types.
--   Passes.Elaborate         passes/elaborate.py: ElaborateSwPass. Instances has the tree and its
--                            index, Binds the connections and the run.
--   Passes.Devirtualize      passes/devirtualize.py: DevirtualizePass, on those connections.
--   Passes.Scheduling        passes/bulk_sync.py and passes/frame_eliminate.py, on the latencies of
--                            WaitPoints.
--   Mmr.CHeader              mmr/c_header.py: MmrRegFileCHeaderEmitter, the masks and the macros on
--                            bytes, with accesses of four bytes.
--   Analysis                 async_analyzer.py: AsyncAnalyzer. Analyzer has its methods.
--   Scenario.Constraint      scenario/constraint_c.py: ConstraintCEmitter. Builder is the state and
--                            exception monad of the emitter, Emitter and Items its methods, Solver
--                            the machine that runs the emitted calls, Says what constraints say.
--   Crt                      crt/zdc_queue.py: Waiters, Queue, Blocking; crt/zdc_completion.py: Completion;
--                            crt/zdc_select.py: Select.
--
-- Nodes of the third-party IR enter as data types with the classes and fields that a pass reads; a
-- constructor named other stands for every class that the pass does not name. Names are numbers.
-- Python sets and dictionaries are lists or functions on their keys, and C arrays are functions on
-- their indices.
--
-- Loops on fuel: the queue loop of CombOrder has one round for each process, since a round takes
-- one process out of the graph. The rounds of the classification of AsyncLower have twice as many
-- as there are async functions and one more, since every round but the last lowers a value, and a
-- value goes from unknown over true to false at most. _analyze of WaitPoints has one step more than
-- the component has methods, since a method on the way is not entered again. _instantiate of
-- Elaborate has the height of the hierarchy, above the rank of its top. visit of TypeLower has one
-- step more than there are types to visit, since a visited type is not entered again; the fuel of
-- map_type there, for references to references and arrays of arrays, has no bound, since a
-- reference may lead to itself. The blocking put and get of Crt spin for
-- as many rounds as the caller gives. All other recursions are structural.
--
-- Parameters: the dv-solve library, as a record of operations with the laws that its C header
-- documents (Scenario.Constraint.Solver); math.ceil on a float quotient and str.upper in Rtl.Waits;
-- the attributes of the user's modules in Rtl.ExprLower; str.startswith("wait") in
-- Passes.WaitPoints; str.lower in Passes.Elaborate; the scheduler of the runtime, as the list of
-- what was scheduled.
--
-- C integer literals have the value of their digits in Rtl.ExprLower, also where a constant or the
-- mask of a slice has more than 64 bits, for which C has no type.
--
-- Not modelled: the formatting of C text (c_generator.py, class_codegen.py, stmt_generator.py,
-- passes/c_emit.py, passes/rtl/c_emit.py and the like), whose meaning is that of a C compiler;
-- files, processes and ctypes (compiler.py, runner.py, co_obj_factory.py); and, to keep the library
-- at a size that can be maintained, the passes that translate third-party nodes one for one
-- (passes/activity_lower.py, passes/resource_lower.py, passes/channel_port_lower.py,
-- passes/inference_emit.py, passes/mem_reg_lower.py), the validator, and crt/zdc_spawn.py.
pub mod Analysis
pub mod Crt
pub mod Mmr
pub mod Passes
pub mod Prelude
pub mod Rtl
pub mod Scenario
